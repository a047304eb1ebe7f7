-- ===== src/Examples/Runs.antt =====
-- The fold of a run's results into the streaks, at one run.
use chain_registry_sentinel.Base.{
  ◌≡◌, refl, true, false, some, none, [], ◌∷◌, String, ℕ, if◌then◌else◌, arith,
}
use chain_registry_sentinel.Base.Int.{pos}
use chain_registry_sentinel.Base.Text.{cut, has_char}
use chain_registry_sentinel.Base.Map.{lookup, insert, or_zero}
use chain_registry_sentinel.State.{endpoint_key, zero_endpoint, zero_chain}
use chain_registry_sentinel.State.History.{Holds, failing, for_key, replay, replay-Holds}
use chain_registry_sentinel.Sentinel.Streaks.{StateMap, update_state}
use chain_registry_sentinel.Sentinel.Streaks.Entries.{lookup_entry, entry_after, update_state-entry}
use chain_registry_sentinel.Sentinel.Streaks.Total.{AllKnown, update_state-total}
use chain_registry_sentinel.Sentinel.Jobs.Active.{is_active}
use chain_registry_sentinel.Examples.Data.{
  failed_result, now, new_state, failing_state, active, rest_key,
}

run_returns :
    update_state new_state (failed_result ∷ []) active (pos 1) now ≡ some (failing_state, 1)
unfolding update_state chain_registry_sentinel.Base.Text.has_suffix lookup insert
    chain_registry_sentinel.State.prune chain_registry_sentinel.Base.Map.filter_keys endpoint_key
    chain_registry_sentinel.Base.Int.increment
run_returns = refl

update_state-entry_example : lookup_entry "osmosis" rest_key failing_state ≡ (
    if is_active active "osmosis" rest_key
    then entry_after "osmosis" rest_key
        (failed_result ∷ [])
        now
        (lookup_entry "osmosis" rest_key new_state)
    else none)
update_state-entry_example =
    update_state-entry "osmosis" rest_key new_state (failed_result ∷ []) active (pos 1) now
      run_returns

known : AllKnown new_state (failed_result ∷ [])
known = (λ h. unfold lookup in refl, tt)

update_state-total_example :
    (out : StateMap × ℕ) × (update_state new_state (failed_result ∷ []) active (pos 1) now
      ≡ some out)
update_state-total_example =
    update_state-total new_state (failed_result ∷ []) active (pos 1) now known

replay-Holds_example :
    Holds
      (or_zero zero_endpoint
        (lookup rest_key (replay zero_chain ((failed_result, now) ∷ [])).endpoints))
      (failing (for_key rest_key ((failed_result, now) ∷ [])))
replay-Holds_example =
    replay-Holds zero_chain rest_key ((failed_result, now) ∷ []) refl (omega arith)
