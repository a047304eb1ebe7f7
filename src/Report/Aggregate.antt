-- ===== src/Report/Aggregate.antt =====
-- internal/report/render.go: `aggregate`, and what the tables decide by it. Counts are natural numbers.
-- `parse_time` stands for `time.Parse(time.RFC3339, ...)`.
pub mod Totals
pub mod Adds
use chain_registry_sentinel.Base.{
  ℕ, ◌+◌, ◌*◌, String, Bool, true, false, ◌&&◌, ◌||◌, not, Option, none, some, List, [], ◌∷◌,
  str_eq, ◌==◌, ltb, leb, if◌then◌else◌,
}
use chain_registry_sentinel.Base.Int.{ltb_ℤ}
use chain_registry_sentinel.Base.Map.{Dict, lookup, insert, or_zero}
use chain_registry_sentinel.Base.Time.{Time, Duration, sub}
use chain_registry_sentinel.Base.Int.{pos}
use chain_registry_sentinel.Checks.FailureClass.{FailureClass, class_text}
use chain_registry_sentinel.Sentinel.ChainDeath.{bump}
use chain_registry_sentinel.Report.Record.{Record, is_liveness}

pub record DomainAgg : Type 0 where
  pub total : ℕ
  pub live : ℕ
  pub chains : Dict (Unit {0})
  pub classes : Dict ℕ

pub record ChainAgg : Type 0 where
  pub core_total : ℕ
  pub core_live : ℕ
  pub has_first : Bool
  pub first_dead : Bool
  pub domains : Dict ℕ
  pub dead_domains : Dict (Unit {0})
  pub answering_rpc : ℕ
  pub stale_rpc : ℕ

pub record Aggregates : Type 0 where
  pub endpoints : ℕ
  pub live : ℕ
  pub rate_limited : ℕ
  pub chain_id_mismatch : ℕ
  pub classes : Dict ℕ
  pub domains : Dict DomainAgg
  pub chains : Dict ChainAgg
  pub with_provider : ℕ
  pub providers : Dict (Unit {0})
  pub catching_up : ℕ
  pub tx_index_off : ℕ
  pub method_restricted : ℕ

abbrev pub empty_domain : DomainAgg
empty_domain = record { total = 0; live = 0; chains = []; classes = [] }

abbrev pub empty_chain : ChainAgg
empty_chain = record {
  core_total = 0;
  core_live = 0;
  has_first = false;
  first_dead = false;
  domains = [];
  dead_domains = [];
  answering_rpc = 0;
  stale_rpc = 0;
}

abbrev pub empty_aggregates : Aggregates
empty_aggregates = record {
  endpoints = 0;
  live = 0;
  rate_limited = 0;
  chain_id_mismatch = 0;
  classes = [];
  domains = [];
  chains = [];
  with_provider = 0;
  providers = [];
  catching_up = 0;
  tx_index_off = 0;
  method_restricted = 0;
}

-- Seven days.
abbrev pub block_stale_after : Duration
block_stale_after = pos 604800000000000

unfoldable pub core_check : String → Bool
core_check check =
    str_eq check "rpc_liveness" || str_eq check "rest_liveness" || str_eq check "evm_liveness"

abbrev pub tick : Bool → ℕ → ℕ
tick b n = if b then n + 1 else n

abbrev pub is_stale : Time → Option Time → Bool
is_stale run_ts none = false
is_stale run_ts (some t) = ltb_ℤ block_stale_after (sub run_ts t)

module _ (parse_time : String → Option Time) where
  -- The changes of `noteChain` to the entry of the record's chain.
  unfoldable pub note_chain : Record → ChainAgg → ChainAgg
  unfolding core_check bump
  note_chain r c =
      let rpc = str_eq r.check "rpc_liveness" in
      let answering = rpc && r.passed && not r.catching_up in
      let core = core_check r.check in
      let first = core && r.order == 1 && (rpc || str_eq r.check "evm_liveness") in
      record {
        core_total = tick core c.core_total;
        core_live = tick (core && r.passed) c.core_live;
        has_first = first || c.has_first;
        first_dead = if first then not r.passed else c.first_dead;
        domains = bump r.domain c.domains;
        dead_domains = if r.passed then c.dead_domains else insert r.domain tt c.dead_domains;
        answering_rpc = tick answering c.answering_rpc;
        stale_rpc =
            tick (answering && is_stale r.run_ts (parse_time r.latest_block_time)) c.stale_rpc;
      }

  -- The changes to the entry of the record's domain.
  unfoldable pub note_domain : Record → DomainAgg → DomainAgg
  unfolding bump class_text
  note_domain r d = record {
    total = d.total + 1;
    live = tick r.passed d.live;
    chains = insert r.chain tt d.chains;
    classes = if r.passed then d.classes else bump (class_text r.failure_class) d.classes;
  }

  -- One measured endpoint.
  unfoldable pub note_endpoint : Record → Aggregates → Aggregates
  unfolding note_chain note_domain bump class_text
  note_endpoint r a =
      let named = not (str_eq r.provider "") in
      record a {
        endpoints = a.endpoints + 1;
        live = tick r.passed a.live;
        classes = if r.passed then a.classes else bump (class_text r.failure_class) a.classes;
        domains =
            insert r.domain (note_domain r (or_zero empty_domain (lookup r.domain a.domains)))
              a.domains;
        chains =
            insert r.chain (note_chain r (or_zero empty_chain (lookup r.chain a.chains))) a.chains;
        with_provider = tick named a.with_provider;
        providers = if named then insert r.provider tt a.providers else a.providers;
        catching_up = tick (r.passed && r.catching_up) a.catching_up;
        tx_index_off = tick (r.passed && str_eq r.tx_index "off") a.tx_index_off;
        method_restricted = tick (r.passed && r.method_restricted) a.method_restricted;
      }

  -- One record: a chain-ID check counts only where it failed, and a skipped one is not measured.
  unfoldable pub note_record : Record → Aggregates → Aggregates
  unfolding note_endpoint is_liveness
  note_record r a =
      if is_liveness r
      then if r.skipped then record a { rate_limited = a.rate_limited + 1 } else note_endpoint r a
      else record a { chain_id_mismatch = tick (not r.passed && not r.skipped) a.chain_id_mismatch }

  unfoldable pub aggregate_from : List Record → Aggregates → Aggregates
  unfolding note_record
  aggregate_from [] a = a
  aggregate_from (r ∷ rs) a = aggregate_from rs (note_record r a)

  unfoldable pub aggregate : List Record → Aggregates
  unfolding aggregate_from
  aggregate records = aggregate_from records empty_aggregates
