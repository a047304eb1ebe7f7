-- ===== src/Examples/Flows.antt =====
-- The three pull-request flows, at a run that opens one pull request each.
use chain_registry_sentinel.Base.{
  ◌≡◌, ◌≤◌, refl, true, false, Option, some, none, [], ◌∷◌, String, ℕ, List, All, any, length,
}
use chain_registry_sentinel.Base.Int.{pos, pos_part}
use chain_registry_sentinel.Base.Map.{Dict, lookup}
use chain_registry_sentinel.Registry.{Chain}
use chain_registry_sentinel.Checks.Result.{Result}
use chain_registry_sentinel.Checks.IbcHash.{HashMismatch}
use chain_registry_sentinel.State.{ChainState}
use chain_registry_sentinel.Sentinel.Jobs.{Job, type_rest}
use chain_registry_sentinel.Sentinel.Flows.{Reply, url, Cli}
use chain_registry_sentinel.Sentinel.Flows.Endpoint.{
  FlaggedEndpoint, preflight_jobs, preflight, has_passed,
}
use chain_registry_sentinel.Sentinel.Flows.Endpoint.Preflight.{is_rescue, preflight-has_passed}
use chain_registry_sentinel.Sentinel.Flows.OpenPrs.{maybe_open_prs}
use chain_registry_sentinel.Sentinel.Flows.OpenPrs.Removals.{
  IsRemoval, maybe_open_prs-IsRemoval, maybe_open_prs-le-max,
}
use chain_registry_sentinel.Sentinel.ChainDeath.{
  ChainDeathFacts, build_chain_death_facts, vantage_suspect, chain_looks_dead,
  run_chain_death_detection,
}
use chain_registry_sentinel.Sentinel.ChainDeath.LooksDead.{IsDying}
use chain_registry_sentinel.Sentinel.Flows.Dispatch.{open_pr_flows}
use chain_registry_sentinel.Sentinel.Flows.Dispatch.Spared.{Spares, open_pr_flows-Spares}
use chain_registry_sentinel.Examples.Data.{
  osmosis, rest_a, rest_key, now, failing_state, failed_result, passed_result,
}

abbrev cli : Cli
cli = record {
  github_repo = "cosmos/chain-registry";
  env_repository = "";
  github_token = "token";
  env_token = "";
  dry_run = false;
  min_failures = pos 1;
  cooldown = pos 100;
  max_endpoint_prs = pos 1;
  max_hash_prs = pos 1;
  max_status_prs = pos 1;
}

abbrev rest_job : Job
rest_job = record { chain = osmosis; endpoint = rest_a; endpoint_type = type_rest; order = 1 }

-- Every probe of the rest endpoint fails again.
abbrev probe_failed : List Job → List Result
probe_failed [] = []
probe_failed (j ∷ js) = failed_result ∷ probe_failed js

abbrev open_removal : Chain → List FlaggedEndpoint → Reply
open_removal ch dead = url "https://github.com/cosmos/chain-registry/pull/1"

abbrev open_fix : String → List HashMismatch → Reply
open_fix name mm = url "https://github.com/cosmos/chain-registry/pull/2"

abbrev open_status : String → ChainState → Reply
open_status name cs = url "https://github.com/cosmos/chain-registry/pull/3"

abbrev dead_rest : FlaggedEndpoint
dead_rest = record {
  check = "rest_liveness";
  address = "https://rest.a.zone";
  consecutive_failures = pos 1;
  first_failure_time = now;
  first_evidence = "no such host";
  last_evidence = "no such host";
}

abbrev found : Dict (List HashMismatch)
found =
    (
      "osmosis",
      record {
        chain_name = "osmosis";
        asset_name = "atom";
        base = "ibc/00";
        expected = "ibc/27";
        path = "transfer/channel-0/uatom";
      }
          ∷ [],
    )
    ∷ []

maybe_open_prs-IsRemoval_example :
    All
      (IsRemoval open_removal now probe_failed cli (rest_job ∷ []) failing_state [])
      (maybe_open_prs open_removal now probe_failed cli
        (osmosis ∷ [])
        (rest_job ∷ [])
        failing_state
        []).opened
maybe_open_prs-IsRemoval_example =
    maybe_open_prs-IsRemoval open_removal now probe_failed cli (rest_job ∷ []) failing_state []
      (osmosis ∷ [])

maybe_open_prs-le-max_example :
    length
      (maybe_open_prs open_removal now probe_failed cli
        (osmosis ∷ [])
        (rest_job ∷ [])
        failing_state
        []).opened
    ≤ pos_part cli.max_endpoint_prs
maybe_open_prs-le-max_example =
    maybe_open_prs-le-max open_removal now probe_failed cli (rest_job ∷ []) failing_state []
      (osmosis ∷ [])

preflight-has_passed_example :
    has_passed
      (preflight probe_failed (("osmosis", dead_rest ∷ []) ∷ []) (rest_job ∷ []))
      "osmosis"
      rest_key
    ≡ any
        (is_rescue "osmosis" rest_key)
        (probe_failed (preflight_jobs (("osmosis", dead_rest ∷ []) ∷ []) (rest_job ∷ [])))
preflight-has_passed_example =
    preflight-has_passed probe_failed (("osmosis", dead_rest ∷ []) ∷ []) (rest_job ∷ []) "osmosis"
      rest_key refl

-- An RPC that answers with an old block.
abbrev stale_result : Result
stale_result = record passed_result { latest_block_time = pos 100 }

abbrev halted_facts : ChainDeathFacts
halted_facts = record {
  endpoints_probed = 1;
  core_total = 1;
  core_live = 1;
  dead_domains = [];
  answering_rpc = 1;
  stale_rpc = 1;
  newest_block = pos 100;
  per_check = ("rpc_liveness", record { total = 1; live = 1; classes = [] }) ∷ [];
  sample_host = "";
  sample_is_dns = false;
}

abbrev host : String → String
host address = "a.zone"

vantage_is_clear : vantage_suspect (stale_result ∷ []) ≡ false
unfolding vantage_suspect chain_registry_sentinel.Base.Text.has_suffix
vantage_is_clear = refl

halted_found :
    lookup "osmosis" (build_chain_death_facts host host (stale_result ∷ []) now (pos 3600)).0
    ≡ some halted_facts
unfolding build_chain_death_facts lookup chain_registry_sentinel.Base.Text.has_suffix
    chain_registry_sentinel.Base.Map.insert chain_registry_sentinel.Base.Time.sub
halted_found = refl

halted-IsDying :
    IsDying halted_facts (build_chain_death_facts host host (stale_result ∷ []) now (pos 3600)).1
unfolding chain_looks_dead
halted-IsDying = record { listed = refl; signature = refl }

open_pr_flows-Spares_example :
    (let d =
        run_chain_death_detection host host
          (stale_result ∷ [])
          failing_state
          (pos 3)
          (pos 3600)
          now in
      Spares "osmosis" (
        open_pr_flows open_status open_removal open_fix probe_failed now cli
          (osmosis ∷ [])
          (rest_job ∷ [])
          d.state_map
          1
          d.candidates
          d.looks_dead
          found))
open_pr_flows-Spares_example =
    open_pr_flows-Spares open_status open_removal open_fix probe_failed now cli (rest_job ∷ []) host
      host (pos 3600) (pos 3) (stale_result ∷ []) failing_state (osmosis ∷ []) 1 found "osmosis"
      vantage_is_clear halted_found halted-IsDying
