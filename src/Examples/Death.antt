-- ===== src/Examples/Death.antt =====
-- The detection of dead chains, at a chain that halted and one that is alive.
use chain_registry_sentinel.Base.{
  ◌≡◌, ◌↔◌, ◌⊎◌, refl, true, false, [], ◌∷◌, String, ℕ, Memᴰ, if◌then◌else◌,
}
use chain_registry_sentinel.Base.Int.{pos}
use chain_registry_sentinel.Base.Map.{lookup}
use chain_registry_sentinel.Sentinel.Streaks.{is_measured}
use chain_registry_sentinel.Sentinel.ChainDeath.{
  ChainDeathFacts, empty_facts, build_chain_death_facts, chain_looks_dead,
  run_chain_death_detection,
}
use chain_registry_sentinel.Sentinel.ChainDeath.Signatures.{
  IsAbandoned, IsHalted, chain_looks_dead_iff,
}
use chain_registry_sentinel.Sentinel.ChainDeath.Counts.{
  Counted, facts_of, on_chain, is_stale, build_chain_death_facts-Counted,
}
use chain_registry_sentinel.Sentinel.ChainDeath.Streak.{
  is_unreliable, streak_after, run_chain_death_detection-streak,
}
use chain_registry_sentinel.Sentinel.ChainDeath.Alive.{chain_looks_dead-alive}
use chain_registry_sentinel.Examples.Data.{passed_result, failed_result, now, new_state}

-- The host of the two addresses.
abbrev host : String → String
host address = "a.zone"

abbrev halted : ChainDeathFacts
halted = record empty_facts { endpoints_probed = 1; answering_rpc = 1; stale_rpc = 1 }

chain_looks_dead_iff_example :
    (chain_looks_dead halted [] ≡ true) ↔ (IsAbandoned halted [] ⊎ IsHalted halted)
chain_looks_dead_iff_example = chain_looks_dead_iff halted []

on : on_chain "osmosis" passed_result ≡ true
unfolding on_chain is_measured chain_registry_sentinel.Base.Text.has_suffix
on = refl

fresh : is_stale now (pos 3600) passed_result ≡ false
unfolding chain_registry_sentinel.Base.Time.sub
fresh = refl

chain_looks_dead-alive_example :
    (let built =
        build_chain_death_facts host host (failed_result ∷ passed_result ∷ []) now (pos 3600) in
      chain_looks_dead (facts_of "osmosis" built.0) built.1)
    ≡ false
chain_looks_dead-alive_example =
    chain_looks_dead-alive host host now (pos 3600) "osmosis" passed_result
      (failed_result ∷ passed_result ∷ []) (Memᴰ.tail (Memᴰ.head refl)) on refl fresh

run_chain_death_detection-streak_example :
    lookup "osmosis"
      (run_chain_death_detection host host
        (failed_result ∷ passed_result ∷ [])
        new_state
        (pos 3)
        (pos 3600)
        now).state_map
    ≡ (let built =
          build_chain_death_facts host host (failed_result ∷ passed_result ∷ []) now (pos 3600) in
        if is_unreliable (failed_result ∷ passed_result ∷ [])
        then lookup "osmosis" new_state
        else streak_after built.1 now (lookup "osmosis" built.0) (lookup "osmosis" new_state))
run_chain_death_detection-streak_example =
    run_chain_death_detection-streak host host now (pos 3600) (failed_result ∷ passed_result ∷ [])
      new_state (pos 3) "osmosis"

build_chain_death_facts-Counted_example :
    Counted "osmosis" now (pos 3600) (failed_result ∷ passed_result ∷ []) empty_facts (
      facts_of "osmosis"
        (build_chain_death_facts host host (failed_result ∷ passed_result ∷ []) now (pos 3600)).0)
build_chain_death_facts-Counted_example =
    build_chain_death_facts-Counted host host now (pos 3600) "osmosis"
      (failed_result ∷ passed_result ∷ [])
