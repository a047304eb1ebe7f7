-- ===== src/Sentinel/ChainDeath/Counts.antt =====
-- The counters of `buildChainDeathFacts` (cmd/sentinel/chaindeath.go), against the run's results.
use chain_registry_sentinel.Base.{
  ℕ, ◌+◌, ◌≡◌, String, Bool, true, false, ◌&&◌, not, List, [], ◌∷◌, arith, count, str_eq, eq_iff,
  Bool-cases, inl, inr, if◌then◌else◌,
}
use chain_registry_sentinel.Base.Int.{ltb_ℤ, is_zero}
use chain_registry_sentinel.Base.Map.{Dict, lookup, insert, or_zero, lookup-insert}
use chain_registry_sentinel.Base.Time.{Time, Duration, sub}
use chain_registry_sentinel.Checks.Result.{Result}
use chain_registry_sentinel.Sentinel.Streaks.{is_measured}
use chain_registry_sentinel.Sentinel.ChainDeath.{
  ChainDeathFacts, empty_facts, is_core, note_facts, note_domain_live, facts_from,
  build_chain_death_facts,
}

-- A measurement of an endpoint of the chain.
unfoldable pub on_chain : String → Result → Bool
on_chain name r = is_measured r && str_eq r.chain name

-- A core check that passed.
abbrev pub is_live_core : Result → Bool
is_live_core r = is_core r.check && r.passed

-- An RPC that answered and is not catching up.
abbrev pub is_answering : Result → Bool
is_answering r = r.passed && (str_eq r.check "rpc_liveness" && not r.catching_up)

-- The block time is known and older than `stale_after`.
abbrev pub is_stale : Time → Duration → Result → Bool
is_stale now stale_after r =
    not (is_zero r.latest_block_time) && ltb_ℤ stale_after (sub now r.latest_block_time)

-- The counters of the second facts are those of the first, and the counts over the results.
pub record Counted (name : String) (now : Time) (stale_after : Duration) (rs : List Result)
    (f g : ChainDeathFacts) : Type 0 where
  pub probed : g.endpoints_probed ≡ f.endpoints_probed + count (on_chain name) rs
  pub core : g.core_total ≡ f.core_total + count (λ r. on_chain name r && is_core r.check) rs
  pub live : g.core_live ≡ f.core_live + count (λ r. on_chain name r && is_live_core r) rs
  pub answering :
      g.answering_rpc ≡ f.answering_rpc + count (λ r. on_chain name r && is_answering r) rs
  pub stale :
      g.stale_rpc
      ≡ f.stale_rpc
        + count (λ r. on_chain name r && (is_answering r && is_stale now stale_after r)) rs

-- The facts of a chain, which a chain with no result has none of.
abbrev pub facts_of : String → Dict ChainDeathFacts → ChainDeathFacts
facts_of name facts = or_zero empty_facts (lookup name facts)

module _ (endpoint_domain endpoint_host : String → String) (now : Time)
    (stale_after : Duration) where
  noted :
      (name : String) (r : Result) (f : ChainDeathFacts)
      → on_chain name r ≡ true
      → Counted name now stale_after
          (r ∷ [])
          f
          (note_facts endpoint_domain endpoint_host now stale_after r f)
  unfolding note_facts
  noted name r f on = ground arith

  -- What one round of the loop makes of the map of facts.
  abbrev fact_round : Result → Dict ChainDeathFacts → Dict ChainDeathFacts
  fact_round r facts =
      if is_measured r
      then insert r.chain
          (note_facts endpoint_domain endpoint_host now stale_after r (facts_of r.chain facts))
          facts
      else facts

  fact_round-on :
      (name : String) (r : Result) (facts : Dict ChainDeathFacts)
      → on_chain name r ≡ true
      → facts_of name (fact_round r facts)
        ≡ note_facts endpoint_domain endpoint_host now stale_after r (facts_of name facts)
  unfolding on_chain
  fact_round-on name r facts on =
      let noted_facts =
        note_facts endpoint_domain endpoint_host now stale_after r (facts_of r.chain facts) in
      ground (arith, lookup-insert r.chain name noted_facts facts, eq_iff r.chain name)

  fact_round-off :
      (name : String) (r : Result) (facts : Dict ChainDeathFacts)
      → on_chain name r ≡ false
      → facts_of name (fact_round r facts) ≡ facts_of name facts
  unfolding on_chain
  fact_round-off name r facts off =
      let noted_facts =
        note_facts endpoint_domain endpoint_host now stale_after r (facts_of r.chain facts) in
      ground (arith, lookup-insert r.chain name noted_facts facts)

  skipped :
      (name : String) (r : Result) (f : ChainDeathFacts)
      → on_chain name r ≡ false
      → Counted name now stale_after (r ∷ []) f f
  skipped name r f off = ground arith

  fact_round-Counted :
      (name : String) (r : Result) (facts : Dict ChainDeathFacts)
      → Counted name now stale_after
          (r ∷ [])
          (facts_of name facts)
          (facts_of name (fact_round r facts))
  fact_round-Counted name r facts = elim (Bool-cases (on_chain name r)) [
    | inl on ↦ rw (fact_round-on name r facts on) (noted name r (facts_of name facts) on)
    | inr off ↦ rw (fact_round-off name r facts off) (skipped name r (facts_of name facts) off)
  ]

  Counted-cons :
      (name : String) (r : Result) (rs : List Result) {f g h : ChainDeathFacts}
      → Counted name now stale_after (r ∷ []) f g
      → Counted name now stale_after rs g h
      → Counted name now stale_after (r ∷ rs) f h
  Counted-cons name r rs a b = ground arith

  facts_from-Counted :
      (name : String) (rs : List Result) (facts : Dict ChainDeathFacts) (live : Dict ℕ)
      → Counted name now stale_after rs
          (facts_of name facts)
          (facts_of name (facts_from endpoint_domain endpoint_host now stale_after rs facts live).0)
  unfolding facts_from
  facts_from-Counted name [] facts live = ground arith
  facts_from-Counted name (r ∷ rs) facts live =
      Counted-cons name r rs (fact_round-Counted name r facts) (
        facts_from-Counted name rs (fact_round r facts)
          (if is_measured r then note_domain_live endpoint_domain endpoint_host r live else live))

  -- For every chain, the counters that `build_chain_death_facts` returns are the counts over the
  -- results of the chain's measured endpoints: all of them, the core checks, the core checks that
  -- passed, the synced RPCs that answered, and those whose block time is stale.
  pub build_chain_death_facts-Counted :
      (name : String) (rs : List Result)
      → Counted name now stale_after rs empty_facts (
          facts_of name
            (build_chain_death_facts endpoint_domain endpoint_host rs now stale_after).0)
  unfolding build_chain_death_facts lookup
  build_chain_death_facts-Counted name rs = facts_from-Counted name rs [] []
