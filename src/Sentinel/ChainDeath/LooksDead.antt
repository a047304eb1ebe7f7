-- ===== src/Sentinel/ChainDeath/LooksDead.antt =====
-- The set `looksDead` of `runChainDeathDetection` (cmd/sentinel/chaindeath.go).
use mathlib.Core.Option.{some-injective}
use chain_registry_sentinel.Base.{
  ℕ, ◌≡◌, refl, inl, inr, String, Bool, true, false, Option, none, some, List, [], ◌∷◌, arith, ◌==◌,
  str_eq, eq_iff, sym, subst, Bool-cases, if◌then◌else◌,
}
use chain_registry_sentinel.Base.Int.{ℤ}
use chain_registry_sentinel.Base.Map.{Dict, lookup, insert, lookup-insert, lookup-insert_self}
use chain_registry_sentinel.Base.Time.{Time, Duration}
use chain_registry_sentinel.Checks.Result.{Result}
use chain_registry_sentinel.State.{ChainState}
use chain_registry_sentinel.Sentinel.Streaks.{StateMap}
use chain_registry_sentinel.Sentinel.ChainDeath.{
  ChainDeathFacts, build_chain_death_facts, vantage_suspect, chain_looks_dead, Detection,
  detect_streak, detect_chain, detect_all, run_chain_death_detection,
}

detect_streak-looks_dead :
    (min_runs : ℤ) (now : Time) (j : String) (dead : Bool) (before : Option ChainState)
    (d : Detection)
    → (detect_streak min_runs now j dead before d).looks_dead ≡ d.looks_dead
unfolding detect_streak
detect_streak-looks_dead min_runs now j dead none d = refl
detect_streak-looks_dead min_runs now j dead (some cs) d = refl

-- What a round adds to the set.
detect_chain-looks_dead :
    (domain_live : Dict ℕ) (min_runs : ℤ) (now : Time) (j : String) (f : ChainDeathFacts)
    (d : Detection)
    → (detect_chain domain_live min_runs now j f d).looks_dead ≡ (
        if f.core_total == 0
        then d.looks_dead
        else if chain_looks_dead f domain_live
        then insert j true d.looks_dead
        else d.looks_dead)
unfolding detect_chain
detect_chain-looks_dead domain_live min_runs now j f d =
    let dead = chain_looks_dead f domain_live in
    let noted : Detection = record d {
      looks_dead = if dead then insert j true d.looks_dead else d.looks_dead;
    } in
    ground (arith, detect_streak-looks_dead min_runs now j dead (lookup j d.state_map) noted)

detect_chain-keeps :
    (domain_live : Dict ℕ) (min_runs : ℤ) (now : Time) (j name : String) (f : ChainDeathFacts)
    (d : Detection)
    → lookup name d.looks_dead ≡ some true
    → lookup name (detect_chain domain_live min_runs now j f d).looks_dead ≡ some true
detect_chain-keeps domain_live min_runs now j name f d h =
    rw (detect_chain-looks_dead domain_live min_runs now j f d)
      (ground (arith, h, lookup-insert j name true d.looks_dead))

detect_all-keeps :
    (domain_live : Dict ℕ) (min_runs : ℤ) (now : Time) (name : String)
    (facts : Dict ChainDeathFacts) (d : Detection)
    → lookup name d.looks_dead ≡ some true
    → lookup name (detect_all domain_live min_runs now facts d).looks_dead ≡ some true
unfolding detect_all
detect_all-keeps domain_live min_runs now name [] d h = h
detect_all-keeps domain_live min_runs now name ((j, f) ∷ facts) d h =
    detect_all-keeps domain_live min_runs now name facts
      (detect_chain domain_live min_runs now j f d)
      (detect_chain-keeps domain_live min_runs now j name f d h)

-- The facts of a chain that looks dead: with a core endpoint, and with one of the signatures.
pub record IsDying (f : ChainDeathFacts) (domain_live : Dict ℕ) : Type 0 where
  pub listed : (f.core_total == 0) ≡ false
  pub signature : chain_looks_dead f domain_live ≡ true

detect_chain-adds :
    (domain_live : Dict ℕ) (min_runs : ℤ) (now : Time) (name : String) (f : ChainDeathFacts)
    (d : Detection)
    → IsDying f domain_live
    → lookup name (detect_chain domain_live min_runs now name f d).looks_dead ≡ some true
detect_chain-adds domain_live min_runs now name f d h =
    rw (detect_chain-looks_dead domain_live min_runs now name f d, h.listed, h.signature)
      (lookup-insert_self name true d.looks_dead)

detect_all-adds :
    (domain_live : Dict ℕ) (min_runs : ℤ) (now : Time) (name : String)
    (facts : Dict ChainDeathFacts) (d : Detection) {f : ChainDeathFacts}
    → lookup name facts ≡ some f
    → IsDying f domain_live
    → lookup name (detect_all domain_live min_runs now facts d).looks_dead ≡ some true
unfolding detect_all lookup
detect_all-adds domain_live min_runs now name [] d found h = cc
detect_all-adds domain_live min_runs now name ((j, g) ∷ facts) d {f} found h =
    elim (Bool-cases (str_eq j name)) [
      | inl same ↦
          let next = detect_chain domain_live min_runs now j g d in
          let same_facts = some-injective _ _ (simp same at found) in
          let dying = subst (λ x. IsDying x domain_live) (sym same_facts) h in
          detect_all-keeps domain_live min_runs now name facts next (
            subst (λ k. lookup k next.looks_dead ≡ some true) ((eq_iff j name).0 same)
              (detect_chain-adds domain_live min_runs now j g d dying))
      | inr other ↦
          detect_all-adds domain_live min_runs now name facts
            (detect_chain domain_live min_runs now j g d) (simp other at found) h
    ]

module _ (endpoint_domain endpoint_host : String → String) (now : Time)
    (stale_after : Duration) where
  pub run_chain_death_detection-looks_dead :
      (results : List Result) (m : StateMap) (min_runs : ℤ) (name : String) {f : ChainDeathFacts}
      → vantage_suspect results ≡ false
      → lookup name
          (build_chain_death_facts endpoint_domain endpoint_host results now stale_after).0
        ≡ some f
      → IsDying f (build_chain_death_facts endpoint_domain endpoint_host results now stale_after).1
      → lookup name
          (run_chain_death_detection endpoint_domain endpoint_host results m min_runs stale_after
            now).looks_dead
        ≡ some true
  unfolding run_chain_death_detection
  run_chain_death_detection-looks_dead results m min_runs name clear found h =
      let (facts, domain_live) =
        build_chain_death_facts endpoint_domain endpoint_host results now stale_after in
      let start : Detection = record { candidates = []; looks_dead = []; state_map = m } in
      simp clear (detect_all-adds domain_live min_runs now name facts start found h)
