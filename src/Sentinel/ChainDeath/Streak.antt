-- ===== src/Sentinel/ChainDeath/Streak.antt =====
-- The chain-death streaks behind `runChainDeathDetection` (cmd/sentinel/chaindeath.go).
use chain_registry_sentinel.Base.{
  ◌≡◌, refl, inl, inr, String, Bool, true, false, Option, none, some, List, [], ◌∷◌, arith, ◌==◌,
  str_eq, eq_iff, Bool-cases, if◌then◌else◌, ℕ, ◌*◌, sym, ◌&&◌, ◌||◌, not, count, ltb, leb,
}
use mathlib.Core.Option
use chain_registry_sentinel.Base.Int.{ℤ, pos, is_zero, increment}
use chain_registry_sentinel.Base.Map.{
  Dict, lookup, insert, or_zero, Distinct, lookup-insert, insert-Distinct,
}
use chain_registry_sentinel.Base.Time.{Time, Duration, zero_time}
use chain_registry_sentinel.Base.Text.{has_suffix}
use chain_registry_sentinel.Checks.FailureClass.{class_text}
use chain_registry_sentinel.Report.Tables.Suspects.{suspect_text}
use chain_registry_sentinel.Checks.Result.{Result}
use chain_registry_sentinel.State.{ChainState}
use chain_registry_sentinel.Sentinel.Streaks.{StateMap, is_measured}
use chain_registry_sentinel.Sentinel.ChainDeath.{
  ChainDeathFacts, empty_facts, note_facts, facts_from, build_chain_death_facts, vantage_suspect,
  is_failed, is_suspect, chain_looks_dead, update_streak, Detection, detect_streak, detect_chain,
  detect_all, run_chain_death_detection,
}

abbrev pub is_failed_probe : Result → Bool
is_failed_probe r = not r.skipped && has_suffix r.check "_liveness" && not r.passed

abbrev pub is_suspect_probe : Result → Bool
is_suspect_probe r =
    is_failed_probe r
    && (str_eq (class_text r.failure_class) "dns_failure"
        || str_eq (class_text r.failure_class) "vantage_no_route")

-- A probe failed, and at least 5 in 100 of those that did are of the two classes that speak against
-- the machine that probes.
abbrev pub is_unreliable : List Result → Bool
is_unreliable results =
    ltb 0 (count is_failed_probe results)
    && leb (count is_failed_probe results) (20 * count is_suspect_probe results)

-- A streak counts on by one, and its first time is that of the run where it was 0; or there is none.
abbrev pub streak_next : Bool → Time → ℤ → Time → ℤ × Time
streak_next dead now streak first =
    if dead then (increment streak, if is_zero streak then now else first) else (pos 0, zero_time)

abbrev pub counted_on : Bool → Time → ChainState → ChainState
counted_on dead now cs =
    let (streak, first) = streak_next dead now cs.chain_dead_streak cs.chain_dead_first_time in
    record cs { chain_dead_streak = streak; chain_dead_first_time = first }

update_streak-counted_on :
    (dead : Bool) (now : Time) (cs : ChainState)
    → update_streak dead now cs ≡ counted_on dead now cs
unfolding update_streak
update_streak-counted_on true now cs = refl
update_streak-counted_on false now cs = refl

failed_probe : (r : Result) → is_failed r ≡ is_failed_probe r
unfolding is_measured
failed_probe r = ground arith

failed_probes : (rs : List Result) → count is_failed rs ≡ count is_failed_probe rs
failed_probes [] = omega arith
failed_probes (r ∷ rs) = ground (arith, failed_probes rs, failed_probe r)

suspect_probes :
    (rs : List Result)
    → count (λ r. is_failed r && is_suspect r.failure_class) rs ≡ count is_suspect_probe rs
suspect_probes [] = omega arith
suspect_probes (r ∷ rs) =
    ground (arith, suspect_probes rs, failed_probe r, suspect_text r.failure_class)

vantage_suspect-is_unreliable : (rs : List Result) → vantage_suspect rs ≡ is_unreliable rs
unfolding vantage_suspect
vantage_suspect-is_unreliable rs = ground (arith, failed_probes rs, suspect_probes rs)

-- The state of a chain behind the detection, by its facts and its state before: a chain with no
-- facts, with no core endpoint listed or with no state is left alone.
abbrev pub streak_after :
    Dict ℕ → Time → Option ChainDeathFacts → Option ChainState → Option ChainState
streak_after domain_live now none before = before
streak_after domain_live now (some f) none = none
streak_after domain_live now (some f) (some cs) =
    if f.core_total == 0 then some cs else some (counted_on (chain_looks_dead f domain_live) now cs)

detect_streak-lookup :
    (min_runs : ℤ) (now : Time) (j name : String) (dead : Bool) (before : Option ChainState)
    (d : Detection)
    → lookup j d.state_map ≡ before
    → lookup name (detect_streak min_runs now j dead before d).state_map
      ≡ (if str_eq j name then Option.map (counted_on dead now) before else lookup name d.state_map)
unfolding detect_streak
detect_streak-lookup min_runs now j name dead none d e = ground (arith, eq_iff j name)
detect_streak-lookup min_runs now j name dead (some cs) d e =
    rw (sym (update_streak-counted_on dead now cs))
      (lookup-insert j name (update_streak dead now cs) d.state_map)

streak_after-unlisted :
    (domain_live : Dict ℕ) (now : Time) (f : ChainDeathFacts) (before : Option ChainState)
    → (f.core_total == 0) ≡ true
    → streak_after domain_live now (some f) before ≡ before
streak_after-unlisted domain_live now f none h = refl
streak_after-unlisted domain_live now f (some cs) h = simp h refl

streak_after-listed :
    (domain_live : Dict ℕ) (now : Time) (f : ChainDeathFacts) (before : Option ChainState)
    → (f.core_total == 0) ≡ false
    → streak_after domain_live now (some f) before
      ≡ Option.map (counted_on (chain_looks_dead f domain_live) now) before
streak_after-listed domain_live now f none h = refl
streak_after-listed domain_live now f (some cs) h = simp h refl

detect_chain-lookup :
    (domain_live : Dict ℕ) (min_runs : ℤ) (now : Time) (j name : String) (f : ChainDeathFacts)
    (d : Detection)
    → lookup name (detect_chain domain_live min_runs now j f d).state_map ≡ (
        if str_eq j name
        then streak_after domain_live now (some f) (lookup name d.state_map)
        else lookup name d.state_map)
unfolding detect_chain
detect_chain-lookup domain_live min_runs now j name f d =
    let dead = chain_looks_dead f domain_live in
    let looks_dead = if dead then insert j true d.looks_dead else d.looks_dead in
    let detected =
      detect_streak-lookup min_runs now j name dead (lookup j d.state_map)
        (record d { looks_dead = looks_dead }) refl in
    elim (Bool-cases (f.core_total == 0)) [
      | inl none_listed ↦ simp none_listed (
          rw (streak_after-unlisted domain_live now f (lookup name d.state_map) none_listed)
            (ground arith))
      | inr listed ↦ simp listed (
          rw (detected, streak_after-listed domain_live now f (lookup name d.state_map) listed)
            (ground (arith, eq_iff j name)))
    ]

detect_all-lookup :
    (domain_live : Dict ℕ) (min_runs : ℤ) (now : Time) (facts : Dict ChainDeathFacts)
    (d : Detection) (name : String)
    → Distinct facts
    → lookup name (detect_all domain_live min_runs now facts d).state_map
      ≡ streak_after domain_live now (lookup name facts) (lookup name d.state_map)
unfolding detect_all lookup
detect_all-lookup domain_live min_runs now [] d name distinct = refl
detect_all-lookup domain_live min_runs now ((j, f) ∷ facts) d name (fresh, distinct) =
    let rest =
      detect_all-lookup domain_live min_runs now facts (detect_chain domain_live min_runs now j f d)
        name distinct in
    let first = detect_chain-lookup domain_live min_runs now j name f d in
    elim (Bool-cases (str_eq j name)) [
      | inl same ↦ ground (arith, rest, first, fresh, eq_iff j name)
      | inr other ↦ ground (arith, rest, first)
    ]

module _ (endpoint_domain endpoint_host : String → String) (now : Time)
    (stale_after : Duration) where
  facts_from-Distinct :
      (rs : List Result) (facts : Dict ChainDeathFacts) (live : Dict ℕ)
      → Distinct facts
      → Distinct (facts_from endpoint_domain endpoint_host now stale_after rs facts live).0
  unfolding facts_from
  facts_from-Distinct [] facts live h = h
  facts_from-Distinct (r ∷ rs) facts live h =
      let f =
        note_facts endpoint_domain endpoint_host now stale_after r
          (or_zero empty_facts (lookup r.chain facts)) in
      elim (Bool-cases (is_measured r)) [
        | inl measured ↦
            simp measured (facts_from-Distinct rs _ _ (insert-Distinct r.chain f facts h))
        | inr skipped ↦ simp skipped (facts_from-Distinct rs facts live h)
      ]

  -- Behind the detection the state of each chain is as follows. Where at least one measured probe
  -- failed, and at least 5 in 100 of those that did are of the class dns_failure or vantage_no_route,
  -- it is as before. Otherwise a chain with facts and a core endpoint has its streak increased by
  -- one, and `now` as its first time if the streak was 0, where `chain_looks_dead` holds of the facts;
  -- where it does not, the streak is 0 and the first time zero. Nothing else of it changes, and every
  -- other chain is as before.
  pub run_chain_death_detection-streak :
      (results : List Result) (m : StateMap) (min_runs : ℤ) (name : String)
      → lookup name
          (run_chain_death_detection endpoint_domain endpoint_host results m min_runs stale_after
            now).state_map
        ≡ (let built =
              build_chain_death_facts endpoint_domain endpoint_host results now stale_after in
            if is_unreliable results
            then lookup name m
            else streak_after built.1 now (lookup name built.0) (lookup name m))
  unfolding run_chain_death_detection build_chain_death_facts
  run_chain_death_detection-streak results m min_runs name =
      let (facts, domain_live) =
        build_chain_death_facts endpoint_domain endpoint_host results now stale_after in
      let start : Detection = record { candidates = []; looks_dead = []; state_map = m } in
      let streaks =
        detect_all-lookup domain_live min_runs now facts start name
          (facts_from-Distinct results [] [] tt) in
      let same = vantage_suspect-is_unreliable results in
      elim (Bool-cases (is_unreliable results)) [
        | inl suspect ↦ rw (same, suspect) refl
        | inr clear ↦ rw (same, clear) streaks
      ]
