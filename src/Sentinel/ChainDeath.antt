-- ===== src/Sentinel/ChainDeath.antt =====
-- cmd/sentinel/chaindeath.go: the evidence that a chain is dead, and the streak of dead-looking
-- runs. `report.EndpointDomain` and `report.EndpointHost` are arguments.
pub mod Signatures
pub mod Counts
pub mod Streak
pub mod Alive
pub mod LooksDead
use chain_registry_sentinel.Base.{
  ℕ, ◌+◌, ◌*◌, String, Bool, true, false, ◌&&◌, ◌||◌, not, Option, none, some, List, [], ◌∷◌, ◌++◌,
  length, count, ltb, leb, ◌==◌, str_eq, if◌then◌else◌,
}
use chain_registry_sentinel.Base.Int.{ℤ, pos, leb_ℤ, ltb_ℤ, is_zero, increment}
use chain_registry_sentinel.Base.Map.{Dict, lookup, insert, or_zero}
use chain_registry_sentinel.Base.Sort.{sort_strings}
use chain_registry_sentinel.Base.Time.{Time, Duration, zero_time, sub, after}
use chain_registry_sentinel.Checks.FailureClass.{
  FailureClass, class_text, dns_failure, dns_nx_domain, vantage_no_route,
}
use chain_registry_sentinel.Checks.Result.{Result}
use chain_registry_sentinel.State.{ChainState}
use chain_registry_sentinel.Sentinel.Streaks.{StateMap, is_measured}

abbrev pub min_withdrawn_operators : ℕ
min_withdrawn_operators = 3

pub record CheckTally : Type 0 where
  pub total : ℕ
  pub live : ℕ
  pub classes : Dict ℕ

pub record ChainDeathFacts : Type 0 where
  pub endpoints_probed : ℕ
  pub core_total : ℕ
  pub core_live : ℕ
  pub dead_domains : Dict ℕ
  pub answering_rpc : ℕ
  pub stale_rpc : ℕ
  pub newest_block : Time
  pub per_check : Dict CheckTally
  pub sample_host : String
  pub sample_is_dns : Bool

-- `DNSFailure` and `VantageNoRoute`, which indict the prober's own environment.
abbrev pub is_suspect : FailureClass → Bool
is_suspect dns_failure = true
is_suspect vantage_no_route = true
is_suspect _ = false

abbrev pub is_failed : Result → Bool
is_failed r = is_measured r && not r.passed

-- `100*suspect/failed >= 5.0` in 64-bit floats is the comparison below: both counts are far below
-- 2^49, so the quotient is rounded to 5.0 only where it is at least 5.
unfoldable pub vantage_suspect : List Result → Bool
unfolding is_measured
vantage_suspect results =
    let failed = count is_failed results in
    let suspect = count (λ r. is_failed r && is_suspect r.failure_class) results in
    ltb 0 failed && leb (5 * failed) (100 * suspect)

-- `m[k]++`.
unfoldable pub bump : String → Dict ℕ → Dict ℕ
bump k m = insert k (or_zero 0 (lookup k m) + 1) m

unfoldable pub is_core : String → Bool
is_core check =
    str_eq check "rpc_liveness" || str_eq check "rest_liveness" || str_eq check "evm_liveness"

abbrev pub empty_tally : CheckTally
empty_tally = record { total = 0; live = 0; classes = [] }

abbrev pub empty_facts : ChainDeathFacts
empty_facts = record {
  endpoints_probed = 0;
  core_total = 0;
  core_live = 0;
  dead_domains = [];
  answering_rpc = 0;
  stale_rpc = 0;
  newest_block = zero_time;
  per_check = [];
  sample_host = "";
  sample_is_dns = false;
}

-- The changes to a chain's tally of the result's check.
unfoldable pub note_tally : Result → CheckTally → CheckTally
unfolding bump class_text
note_tally r t =
    if r.passed
    then record t { total = t.total + 1; live = t.live + 1 }
    else record t { total = t.total + 1; classes = bump (class_text r.failure_class) t.classes }

-- A synced RPC that answered: whether its block time is stale, and the newest block so far.
unfoldable pub note_answering : Time → Duration → Result → ChainDeathFacts → ChainDeathFacts
note_answering now stale_after r f =
    if is_zero r.latest_block_time
    then record f { answering_rpc = f.answering_rpc + 1 }
    else record f {
      answering_rpc = f.answering_rpc + 1;
      stale_rpc =
          if ltb_ℤ stale_after (sub now r.latest_block_time) then f.stale_rpc + 1 else f.stale_rpc;
      newest_block =
          if after r.latest_block_time f.newest_block then r.latest_block_time else f.newest_block;
    }

abbrev is_nx_domain : FailureClass → Bool
is_nx_domain dns_nx_domain = true
is_nx_domain _ = false

module _ (endpoint_domain endpoint_host : String → String) where
  -- The dead domain and the sample host of a failed result.
  unfoldable pub note_dead : Result → ChainDeathFacts → ChainDeathFacts
  unfolding bump
  note_dead r f =
      let dns = is_nx_domain r.failure_class in
      let better = str_eq f.sample_host "" || dns && not f.sample_is_dns in
      record f {
        dead_domains = bump (endpoint_domain r.endpoint) f.dead_domains;
        sample_host = if better then endpoint_host r.endpoint else f.sample_host;
        sample_is_dns = if better then dns else f.sample_is_dns;
      }

  -- One measured result, in the facts of its chain.
  unfoldable pub note_facts : Time → Duration → Result → ChainDeathFacts → ChainDeathFacts
  unfolding note_tally is_core note_answering note_dead
  note_facts now stale_after r f =
      let tally = or_zero empty_tally (lookup r.check f.per_check) in
      let core = is_core r.check in
      let g = record f {
        endpoints_probed = f.endpoints_probed + 1;
        per_check = insert r.check (note_tally r tally) f.per_check;
        core_total = if core then f.core_total + 1 else f.core_total;
        core_live = if core && r.passed then f.core_live + 1 else f.core_live;
      } in
      if r.passed
      then if str_eq r.check "rpc_liveness" && not r.catching_up
        then note_answering now stale_after r g
        else g
      else note_dead r g

  unfoldable pub note_domain_live : Result → Dict ℕ → Dict ℕ
  unfolding bump
  note_domain_live r live = if r.passed then bump (endpoint_domain r.endpoint) live else live

  -- The loop of `buildChainDeathFacts`, over the two maps that it fills.
  unfoldable pub facts_from :
      Time → Duration → List Result → Dict ChainDeathFacts → Dict ℕ → Dict ChainDeathFacts × Dict ℕ
  unfolding note_facts note_domain_live is_measured
  facts_from now stale_after [] facts live = (facts, live)
  facts_from now stale_after (r ∷ rs) facts live =
      let f = or_zero empty_facts (lookup r.chain facts) in
      let facts' = insert r.chain (note_facts now stale_after r f) facts in
      let live' = note_domain_live r live in
      facts_from now stale_after rs (if is_measured r then facts' else facts)
        (if is_measured r then live' else live)

  unfoldable pub build_chain_death_facts :
      List Result → Time → Duration → Dict ChainDeathFacts × Dict ℕ
  unfolding facts_from
  build_chain_death_facts results now stale_after = facts_from now stale_after results [] []

-- The domains of a chain's dead endpoints that are live on some chain.
unfoldable pub withdrawn : Dict ℕ → Dict ℕ → ℕ
withdrawn domain_live dead_domains =
    count (λ (entry : String × ℕ). ltb 0 (or_zero 0 (lookup entry.0 domain_live))) dead_domains

-- `needed`, from the number of operators with a dead endpoint.
unfoldable pub needed_witnesses : ℕ → ℕ
needed_witnesses n =
    let needed = if ltb n min_withdrawn_operators then n else min_withdrawn_operators in
    if ltb needed 2 then 2 else needed

unfoldable pub chain_looks_dead : ChainDeathFacts → Dict ℕ → Bool
unfolding needed_witnesses
chain_looks_dead f domain_live =
    let unreachable =
      ltb 0 f.core_total
      && f.core_live == 0
      && leb (needed_witnesses (length f.dead_domains)) (withdrawn domain_live f.dead_domains) in
    let halted = ltb 0 f.answering_rpc && f.stale_rpc == f.answering_rpc in unreachable || halted

-- The streak of a chain, by whether it looks dead in this run.
unfoldable pub update_streak : Bool → Time → ChainState → ChainState
update_streak true now cs = record cs {
  chain_dead_first_time = if is_zero cs.chain_dead_streak then now else cs.chain_dead_first_time;
  chain_dead_streak = increment cs.chain_dead_streak;
}
update_streak false now cs = record cs {
  chain_dead_streak = pos 0;
  chain_dead_first_time = zero_time;
}

-- What the loop of `runChainDeathDetection` changes.
pub record Detection : Type 0 where
  pub candidates : List String
  pub looks_dead : Dict Bool
  pub state_map : StateMap

unfoldable pub detect_streak : ℤ → Time → String → Bool → Option ChainState → Detection → Detection
unfolding update_streak
detect_streak min_runs now name dead none d = d
detect_streak min_runs now name dead (some cs) d =
    let cs' = update_streak dead now cs in
    record d {
      state_map = insert name cs' d.state_map;
      candidates =
          if leb_ℤ min_runs cs'.chain_dead_streak then d.candidates ++ name ∷ [] else d.candidates;
    }

-- One round of the loop over the facts.
unfoldable pub detect_chain : Dict ℕ → ℤ → Time → String → ChainDeathFacts → Detection → Detection
unfolding chain_looks_dead withdrawn detect_streak
detect_chain domain_live min_runs now name f d =
    let dead = chain_looks_dead f domain_live in
    let noted = record d {
      looks_dead = if dead then insert name true d.looks_dead else d.looks_dead;
    } in
    if f.core_total == 0
    then d
    else detect_streak min_runs now name dead (lookup name noted.state_map) noted

unfoldable pub detect_all : Dict ℕ → ℤ → Time → Dict ChainDeathFacts → Detection → Detection
unfolding detect_chain
detect_all domain_live min_runs now [] d = d
detect_all domain_live min_runs now ((name, f) ∷ facts) d =
    detect_all domain_live min_runs now facts (detect_chain domain_live min_runs now name f d)

module _ (endpoint_domain endpoint_host : String → String) where
  -- `runChainDeathDetection` on a state map that is not nil, which is how `main` calls it.
  unfoldable pub run_chain_death_detection :
      List Result → StateMap → ℤ → Duration → Time → Detection
  unfolding vantage_suspect build_chain_death_facts detect_all
  run_chain_death_detection results m min_runs stale_after now =
      let (facts, domain_live) =
        build_chain_death_facts endpoint_domain endpoint_host results now stale_after in
      let d =
        detect_all domain_live min_runs now facts
          (record { candidates = []; looks_dead = []; state_map = m }) in
      if vantage_suspect results
      then record { candidates = []; looks_dead = []; state_map = m }
      else record d { candidates = sort_strings d.candidates }
