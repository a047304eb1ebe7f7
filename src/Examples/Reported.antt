-- ===== src/Examples/Reported.antt =====
-- The report of a run with one endpoint that passes and one that fails.
use chain_registry_sentinel.Base.{
  ℕ, ◌≡◌, refl, arith, ltb, String, false, Option, none, some, List, [], ◌∷◌,
}
use chain_registry_sentinel.Base.Int.{pos}
use chain_registry_sentinel.Base.Time.{Time}
use chain_registry_sentinel.Checks.Result.{Result}
use chain_registry_sentinel.Base.Map.{Dict, lookup, or_zero}
use chain_registry_sentinel.Sentinel.ChainDeath.{
  ChainDeathFacts, empty_facts, chain_looks_dead, vantage_suspect,
}
use chain_registry_sentinel.Report.Record.{Record, RunMeta, Platform, build}
use chain_registry_sentinel.Report.Aggregate.{DomainAgg, ChainAgg, empty_chain, aggregate}
use chain_registry_sentinel.Report.Aggregate.Adds.{Adds, aggregate-Adds}
use chain_registry_sentinel.Report.Tables.{vantage_warned, is_live_domain, signature_of}
use chain_registry_sentinel.Report.Tables.Death.{is_candidate, signature_of-chain_looks_dead}
use chain_registry_sentinel.Report.Tables.Vantage.{vantage_warned-vantage_suspect}
use chain_registry_sentinel.Examples.Data.{now, passed_result, failed_result, failing_state}

abbrev platform : Platform
platform = record {
  split_host_port = λ _. none;
  is_ip = λ _. false;
  milliseconds = λ d. d;
  rfc3339 = λ _. "2026-07-28T00:00:00Z";
}

abbrev meta : RunMeta
meta = record {
  ts = now;
  vantage = "home";
  registry_commit = "";
  concurrency = pos 8;
  timeout = pos 10000;
}

abbrev parse_time : String → Option Time
parse_time _ = some now

abbrev results : List Result
results = passed_result ∷ failed_result ∷ []

abbrev records : List Record
unfolding build
records = build platform results failing_state meta

aggregate-Adds_example : Adds (aggregate parse_time records)
aggregate-Adds_example = aggregate-Adds parse_time records

vantage_warned-vantage_suspect_example :
    vantage_warned (aggregate parse_time (build platform results failing_state meta))
    ≡ vantage_suspect results
vantage_warned-vantage_suspect_example =
    vantage_warned-vantage_suspect platform failing_state meta parse_time results

abbrev facts : ChainDeathFacts
facts = record empty_facts { core_total = 2; dead_domains = ("a.zone", 2) ∷ ("b.zone", 1) ∷ [] }

abbrev shown : ChainAgg
shown = record empty_chain { core_total = 2; dead_domains = ("a.zone", tt) ∷ ("b.zone", tt) ∷ [] }

abbrev live_counts : Dict ℕ
live_counts = ("a.zone", 4) ∷ ("b.zone", 3) ∷ []

abbrev domains : Dict DomainAgg
domains =
    ("a.zone", record { total = 6; live = 4; chains = []; classes = [] })
    ∷ ("b.zone", record { total = 4; live = 3; chains = []; classes = [] })
    ∷ []

same_domains : (d : String) → is_live_domain domains d ≡ ltb 0 (or_zero 0 (lookup d live_counts))
unfolding lookup
same_domains d = ground arith

signature_of-chain_looks_dead_example :
    is_candidate (signature_of domains shown) ≡ chain_looks_dead facts live_counts
signature_of-chain_looks_dead_example =
    signature_of-chain_looks_dead facts live_counts shown domains refl refl refl refl refl
      same_domains
