-- ===== src/Sentinel/Streaks.antt =====
-- cmd/sentinel/main.go: `updateState`, which folds one run's results into the streaks.
pub mod Entries
pub mod Total
use chain_registry_sentinel.Base.{
  ℕ, ◌+◌, String, Bool, ◌&&◌, not, Option, none, some, List, [], ◌∷◌, count, if◌then◌else◌,
}
use chain_registry_sentinel.Base.Int.{ℤ, leb_ℤ}
use chain_registry_sentinel.Base.Map.{Dict, lookup, insert, or_zero}
use chain_registry_sentinel.Base.Panic.{◌>>=◌}
use chain_registry_sentinel.Base.Text.{has_suffix}
use chain_registry_sentinel.Base.Time.{Time}
use chain_registry_sentinel.Checks.Result.{Result}
use chain_registry_sentinel.State.{ChainState, EndpointState, update, prune}

abbrev pub StateMap : Type 0
StateMap = Dict ChainState

-- The results that the first loop does not skip by `continue`.
unfoldable pub is_measured : Result → Bool
is_measured r = not r.skipped && has_suffix r.check "_liveness"

abbrev pub write_back : Result → Time → StateMap → Option ChainState → Option StateMap
write_back r now m none = none
write_back r now m (some cs) = some (insert r.chain (update r now cs) m)

-- One update; `none` is the panic on a write to the nil map of a chain that has no state.
unfoldable pub update_chain : Result → Time → StateMap → Option StateMap
update_chain r now m = write_back r now m (lookup r.chain m)

-- The first loop of `updateState`.
unfoldable pub update_all : List Result → Time → StateMap → Option StateMap
unfolding update_chain
update_all [] now m = some m
update_all (r ∷ rs) now m = do
  m' ← if is_measured r then update_chain r now m else some m
  update_all rs now m'

-- `ep.ConsecutiveFailures >= threshold`.
abbrev pub is_flagged : ℤ → String × EndpointState → Bool
is_flagged threshold (key, ep) = leb_ℤ threshold ep.consecutive_failures

-- The second loop: every chain is pruned, and its flagged endpoints are counted.
unfoldable pub prune_all : Dict (Dict (Unit {0})) → ℤ → StateMap → StateMap × ℕ
prune_all active threshold [] = ([], 0)
prune_all active threshold ((name, cs) ∷ m) =
    let cs' = prune (or_zero [] (lookup name active)) cs in
    let (rest, flagged) = prune_all active threshold m in
    ((name, cs') ∷ rest, count (is_flagged threshold) cs'.endpoints + flagged)

unfoldable pub update_state :
    StateMap → List Result → Dict (Dict (Unit {0})) → ℤ → Time → Option (StateMap × ℕ)
unfolding update_all prune_all update is_measured
update_state m results active threshold now = do
  m' ← update_all results now m
  some (prune_all active threshold m')
