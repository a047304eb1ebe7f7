-- ===== src/Report/Tables/Vantage.antt =====
-- The warning of `renderVantageWarning` (internal/report/render.go) and `vantageSuspect`
-- (cmd/sentinel/chaindeath.go).
use chain_registry_sentinel.Base.{
  ℕ, ◌+◌, ◌*◌, ◌≡◌, refl, ap, ◌∙◌, inl, inr, String, Bool, true, false, ◌&&◌, not, Option, List, [],
  ◌∷◌, arith, count, str_eq, ◌==◌, eq_iff, Bool-cases, leb, if◌then◌else◌,
}
use chain_registry_sentinel.Base.Map.{Dict, lookup, or_zero, lookup-insert}
use chain_registry_sentinel.Base.Time.{Time}
use chain_registry_sentinel.Checks.FailureClass.{class_text}
use chain_registry_sentinel.Report.Tables.Suspects.{suspect_text, one_suspect_text}
use chain_registry_sentinel.Checks.Result.{Result}
use chain_registry_sentinel.Sentinel.Streaks.{StateMap, is_measured}
use chain_registry_sentinel.Sentinel.ChainDeath.{bump, is_failed, is_suspect, vantage_suspect}
use chain_registry_sentinel.Report.Record.{
  Record, RunMeta, Platform, is_liveness, is_dropped, record_of, insert_record, build,
}
use chain_registry_sentinel.Report.Aggregate.{
  Aggregates, empty_aggregates, note_endpoint, note_record, aggregate_from, aggregate,
}
use chain_registry_sentinel.Report.Tables.{dead, vantage_warned}

-- A measured endpoint that is not live.
abbrev is_dead : Record → Bool
is_dead r = is_liveness r && not r.skipped && not r.passed

abbrev is_dead_by : String → Record → Bool
is_dead_by k r = is_dead r && str_eq (class_text r.failure_class) k

bump-or_zero :
    (j k : String) (m : Dict ℕ)
    → or_zero 0 (lookup k (bump j m)) ≡ (if str_eq j k then 1 else 0) + or_zero 0 (lookup k m)
unfolding bump
bump-or_zero j k m = ground (arith, lookup-insert j k (or_zero 0 (lookup j m) + 1) m, eq_iff j k)

module _ (parse_time : String → Option Time) where
  note_record-classes :
      (k : String) (r : Record) (a : Aggregates)
      → or_zero 0 (lookup k (note_record parse_time r a).classes)
        ≡ (if is_dead_by k r then 1 else 0) + or_zero 0 (lookup k a.classes)
  unfolding note_record note_endpoint
  note_record-classes k r a =
      let bumped = bump-or_zero (class_text r.failure_class) k a.classes in
      elim (Bool-cases (is_liveness r)) [
        | inl live ↦ elim (Bool-cases r.skipped) [
          | inl skipped ↦ rw (live, skipped) (omega arith)
          | inr measured ↦ elim (Bool-cases r.passed) [
            | inl passed ↦ rw (live, measured, passed) (omega arith)
            | inr failed ↦ rw (live, measured, failed) bumped
          ]
        ]
        | inr other ↦ rw other (omega arith)
      ]

  aggregate_from-classes :
      (k : String) (rs : List Record) (a : Aggregates)
      → or_zero 0 (lookup k (aggregate_from parse_time rs a).classes)
        ≡ count (is_dead_by k) rs + or_zero 0 (lookup k a.classes)
  unfolding aggregate_from
  aggregate_from-classes k [] a = omega arith
  aggregate_from-classes k (r ∷ rs) a =
      ground
        (arith, aggregate_from-classes k rs (note_record parse_time r a), note_record-classes k r a)

  note_record-dead :
      (r : Record) (a : Aggregates)
      → (note_record parse_time r a).endpoints + a.live
        ≡ (note_record parse_time r a).live + a.endpoints + (if is_dead r then 1 else 0)
  unfolding note_record note_endpoint
  note_record-dead r a = ground arith

  aggregate_from-dead :
      (rs : List Record) (a : Aggregates)
      → (aggregate_from parse_time rs a).endpoints + a.live
        ≡ (aggregate_from parse_time rs a).live + a.endpoints + count is_dead rs
  unfolding aggregate_from
  aggregate_from-dead [] a = omega arith
  aggregate_from-dead (r ∷ rs) a =
      let rest = aggregate_from-dead rs (note_record parse_time r a) in
      let here = note_record-dead r a in ground (arith, rest, here)

  -- The warning, as counts of the records.
  vantage_warned-count :
      (rs : List Record)
      → vantage_warned (aggregate parse_time rs) ≡ (
          let failed = count is_dead rs in
          let suspect =
            count (is_dead_by "dns_failure") rs + count (is_dead_by "vantage_no_route") rs in
          not (suspect == 0) && not (failed == 0) && leb (5 * failed) (100 * suspect))
  unfolding vantage_warned dead aggregate lookup
  vantage_warned-count rs = ground (
    arith,
    aggregate_from-dead rs empty_aggregates,
    aggregate_from-classes "dns_failure" rs empty_aggregates,
    aggregate_from-classes "vantage_no_route" rs empty_aggregates,
  )

module _ (P : Platform) (state_map : StateMap) (meta : RunMeta) where
  count-insert_record :
      (p : Record → Bool) (r : Record) (ts : List Record)
      → count p (insert_record P r ts) ≡ (if p r then 1 else 0) + count p ts
  unfolding insert_record
  count-insert_record p r [] = ground arith
  count-insert_record p r (t ∷ ts) = ground (arith, count-insert_record p r ts)

  -- A test of records that no dropped result passes.
  count-build :
      (p : Record → Bool) (q : Result → Bool) (rs : List Result)
      → ((r : Result) → p (record_of P r state_map meta) ≡ q r)
      → ((r : Result) → is_dropped P r ≡ true → q r ≡ false)
      → count p (build P rs state_map meta) ≡ count q rs
  unfolding build
  count-build p q [] same out = refl
  count-build p q (r ∷ rs) same out =
      let rest = count-build p q rs same out in
      let here = same r in
      let inserted =
        count-insert_record p (record_of P r state_map meta) (build P rs state_map meta) in
      elim (Bool-cases (is_dropped P r)) [
        | inl dropped ↦ let no = out r dropped in rw dropped (ground (arith, rest, no))
        | inr stays ↦ rw stays (ground (arith, rest, here, inserted))
      ]

  record_of-is_dead : (r : Result) → is_dead (record_of P r state_map meta) ≡ is_failed r
  unfolding record_of is_liveness is_measured
  record_of-is_dead r = ground arith

  dropped-is_failed : (r : Result) → is_dropped P r ≡ true → is_failed r ≡ false
  unfolding is_measured
  dropped-is_failed r h = ground arith

  failed_by : String → Result → Bool
  failed_by k r = is_failed r && str_eq (class_text r.failure_class) k

  record_of-is_dead_by :
      (k : String) (r : Result) → is_dead_by k (record_of P r state_map meta) ≡ failed_by k r
  unfolding record_of failed_by
  record_of-is_dead_by k r =
      ap (λ b. b && str_eq (class_text r.failure_class) k) (record_of-is_dead r)

  dropped-failed_by : (k : String) (r : Result) → is_dropped P r ≡ true → failed_by k r ≡ false
  unfolding failed_by
  dropped-failed_by k r h = rw (dropped-is_failed r h) refl

  count-suspects :
      (rs : List Result)
      → count (failed_by "dns_failure") rs + count (failed_by "vantage_no_route") rs
        ≡ count (λ r. is_failed r && is_suspect r.failure_class) rs
  unfolding failed_by
  count-suspects [] = omega arith
  count-suspects (r ∷ rs) =
      let t = class_text r.failure_class in
      ground (arith, count-suspects rs, suspect_text r.failure_class, one_suspect_text t)

  -- The report of a run warns of its vantage exactly when the detection of dead chains leaves the run
  -- out: on the same results, the two predicates agree.
  pub vantage_warned-vantage_suspect :
      (parse_time : String → Option Time) (results : List Result)
      → vantage_warned (aggregate parse_time (build P results state_map meta))
        ≡ vantage_suspect results
  unfolding vantage_suspect
  vantage_warned-vantage_suspect parse_time results =
      let by = λ (k : String).
        count-build (is_dead_by k) (failed_by k) results (record_of-is_dead_by k)
          (dropped-failed_by k) in
      vantage_warned-count parse_time (build P results state_map meta)
      ∙ ground (
        arith,
        count-build is_dead is_failed results record_of-is_dead dropped-is_failed,
        by "dns_failure",
        by "vantage_no_route",
        count-suspects results,
      )
