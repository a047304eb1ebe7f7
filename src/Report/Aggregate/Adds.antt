-- ===== src/Report/Aggregate/Adds.antt =====
-- The counts of `aggregate` (internal/report/render.go), against each other.
use chain_registry_sentinel.Base.{
  suc, ◌+◌, ◌≤◌, ◌≡◌, refl, inl, inr, String, Option, List, [], ◌∷◌, arith, Bool-cases,
}
use chain_registry_sentinel.Base.Map.{lookup, or_zero}
use chain_registry_sentinel.Base.Time.{Time}
use chain_registry_sentinel.Checks.FailureClass.{class_text}
use chain_registry_sentinel.Report.Record.{Record, is_liveness}
use chain_registry_sentinel.Report.Aggregate.{
  DomainAgg, Aggregates, empty_domain, empty_aggregates, tick, note_domain, note_endpoint,
  note_record, aggregate_from, aggregate,
}
use chain_registry_sentinel.Report.Aggregate.Totals.{total, total-insert, total-bump}

-- Live and dead endpoints are all of them, by failure class and by domain, and what is said of live
-- endpoints is said of at most all of them.
pub record Adds (a : Aggregates) : Type 0 where
  pub by_class : a.live + total (λ n. n) a.classes ≡ a.endpoints
  pub by_domain : total (λ d. d.total) a.domains ≡ a.endpoints
  pub live_by_domain : total (λ d. d.live) a.domains ≡ a.live
  pub quality :
      (a.catching_up ≤ a.live) × (a.tx_index_off ≤ a.live) × (a.method_restricted ≤ a.live)
  pub providers : a.with_provider ≤ a.endpoints

module _ (parse_time : String → Option Time) where
  note_domain-counts :
      (r : Record) (d : DomainAgg)
      → ((note_domain parse_time r d).total ≡ suc d.total)
        × ((note_domain parse_time r d).live ≡ tick r.passed d.live)
  unfolding note_domain
  note_domain-counts r d = (omega arith, refl)

  note_endpoint-Adds : (r : Record) (a : Aggregates) → Adds a → Adds (note_endpoint parse_time r a)
  unfolding note_endpoint
  note_endpoint-Adds r a h =
      let d = or_zero empty_domain (lookup r.domain a.domains) in
      let noted = note_domain-counts r d in
      let totals =
        total-insert (λ (d : DomainAgg). d.total) empty_domain r.domain (note_domain parse_time r d)
          a.domains refl in
      let lives =
        total-insert (λ (d : DomainAgg). d.live) empty_domain r.domain (note_domain parse_time r d)
          a.domains refl in
      record {
        by_class = ground (arith, h.by_class, total-bump (class_text r.failure_class) a.classes);
        by_domain = omega (arith, totals, noted.0, h.by_domain);
        live_by_domain = ground (arith, lives, noted.1, h.live_by_domain);
        quality = ground (arith, h.quality);
        providers = ground (arith, h.providers);
      }

  note_record-Adds : (r : Record) (a : Aggregates) → Adds a → Adds (note_record parse_time r a)
  unfolding note_record
  note_record-Adds r a h = elim (Bool-cases (is_liveness r)) [
    | inl live ↦ elim (Bool-cases r.skipped) [
      | inl skipped ↦
          rw (live, skipped)
            (record {
              by_class = h.by_class;
              by_domain = h.by_domain;
              live_by_domain = h.live_by_domain;
              quality = h.quality;
              providers = h.providers;
            })
      | inr measured ↦ rw (live, measured) (note_endpoint-Adds r a h)
    ]
    | inr other ↦ rw other (record {
      by_class = h.by_class;
      by_domain = h.by_domain;
      live_by_domain = h.live_by_domain;
      quality = h.quality;
      providers = h.providers;
    })
  ]

  aggregate_from-Adds :
      (records : List Record) (a : Aggregates) → Adds a → Adds (aggregate_from parse_time records a)
  unfolding aggregate_from
  aggregate_from-Adds [] a h = h
  aggregate_from-Adds (r ∷ rs) a h =
      aggregate_from-Adds rs (note_record parse_time r a) (note_record-Adds r a h)

  -- In the aggregates of any records, the live endpoints and the failures of all classes are all
  -- endpoints, so are the totals of the domains, the live ones of the domains are the live ones, and
  -- the remarks on live endpoints are at most as many as they.
  pub aggregate-Adds : (records : List Record) → Adds (aggregate parse_time records)
  unfolding aggregate
  aggregate-Adds records = aggregate_from-Adds records empty_aggregates (record {
    by_class = refl;
    by_domain = refl;
    live_by_domain = refl;
    quality = (omega arith, omega arith, omega arith);
    providers = omega arith;
  })
