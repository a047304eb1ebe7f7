-- ===== src/Sentinel/Streaks/Total.antt =====
-- `updateState` (cmd/sentinel/main.go) on state maps that hold the measured chains.
use chain_registry_sentinel.Base.{
  ℕ, ◌≡◌, refl, String, true, some, List, [], ◌∷◌, arith, Bool-cases, inl, inr, Option-cases,
}
use chain_registry_sentinel.Base.Int.{ℤ}
use chain_registry_sentinel.Base.Map.{Dict, lookup, insert, is_some, lookup-insert}
use chain_registry_sentinel.Base.Time.{Time}
use chain_registry_sentinel.Checks.Result.{Result}
use chain_registry_sentinel.State.{ChainState, update}
use chain_registry_sentinel.Sentinel.Streaks.{
  StateMap, is_measured, update_chain, update_all, prune_all, update_state,
}

-- Every measured result is about a chain with a state.
abbrev pub AllKnown : StateMap → List Result → Type 0
AllKnown m [] = Unit
AllKnown m (r ∷ rs) = (is_measured r ≡ true → is_some (lookup r.chain m) ≡ true) × AllKnown m rs

known-insert :
    (c k : String) (cs : ChainState) (m : StateMap)
    → is_some (lookup c m) ≡ true
    → is_some (lookup c (insert k cs m)) ≡ true
known-insert c k cs m h = ground (arith, lookup-insert k c cs m)

AllKnown-insert :
    (k : String) (cs : ChainState) (m : StateMap) (rs : List Result)
    → AllKnown m rs
    → AllKnown (insert k cs m) rs
AllKnown-insert k cs m [] h = tt
AllKnown-insert k cs m (r ∷ rs) h =
    (λ seen. known-insert r.chain k cs m (h.0 seen), AllKnown-insert k cs m rs h.1)

update_chain-total :
    (r : Result) (now : Time) (m : StateMap)
    → is_some (lookup r.chain m) ≡ true
    → (cs : ChainState) × (update_chain r now m ≡ some (insert r.chain (update r now cs) m))
unfolding update_chain
update_chain-total r now m h = elim (Option-cases (lookup r.chain m)) [
  | inl missing ↦ cc (simp missing at h)
  | inr (cs, found) ↦ (cs, rw found)
]

update_all-total :
    (rs : List Result) (now : Time) (m : StateMap)
    → AllKnown m rs
    → (m' : StateMap) × (update_all rs now m ≡ some m')
unfolding update_all
update_all-total [] now m h = (m, refl)
update_all-total (r ∷ rs) now m h = elim (Bool-cases (is_measured r)) [
  | inl seen ↦
      let (cs, step) = update_chain-total r now m (h.0 seen) in
      simp (seen, step)
        (update_all-total rs now (insert r.chain (update r now cs) m)
          (AllKnown-insert r.chain (update r now cs) m rs h.1))
  | inr unseen ↦ simp unseen (update_all-total rs now m h.1)
]

-- If every measured result is about a chain that has a state, the fold returns and does not panic.
pub update_state-total :
    (m : StateMap) (results : List Result) (active : Dict (Dict (Unit {0}))) (threshold : ℤ)
    (now : Time)
    → AllKnown m results
    → (out : StateMap × ℕ) × (update_state m results active threshold now ≡ some out)
unfolding update_state
update_state-total m results active threshold now h =
    let (m₁, looped) = update_all-total results now m h in
    (prune_all active threshold m₁, rw looped)
