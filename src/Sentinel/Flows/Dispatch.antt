-- ===== src/Sentinel/Flows/Dispatch.antt =====
-- cmd/sentinel/prflow.go: `openPRFlows`, which runs the three flows in order.
pub mod Spared
use chain_registry_sentinel.Base.{ℕ, String, Bool, List, [], ltb, if◌then◌else◌}
use chain_registry_sentinel.Base.Map.{Dict}
use chain_registry_sentinel.Base.Time.{Time}
use chain_registry_sentinel.Registry.{Chain}
use chain_registry_sentinel.Checks.Result.{Result}
use chain_registry_sentinel.Checks.IbcHash.{HashMismatch}
use chain_registry_sentinel.State.{ChainState}
use chain_registry_sentinel.Sentinel.Jobs.{Job}
use chain_registry_sentinel.Sentinel.Streaks.{StateMap}
use chain_registry_sentinel.Sentinel.Flows.{Reply, Cli}
use chain_registry_sentinel.Sentinel.Flows.Endpoint.{FlaggedEndpoint}
use chain_registry_sentinel.Sentinel.Flows.OpenPrs.{Opened, maybe_open_prs}
use chain_registry_sentinel.Sentinel.Flows.OpenPrs
use chain_registry_sentinel.Sentinel.Flows.Hash.{OpenedHash, maybe_open_hash_prs}
use chain_registry_sentinel.Sentinel.Flows.Status.{maybe_open_status_prs}

-- The pull requests of the three flows, and the state map behind them.
pub record Dispatched : Type 0 where
  pub state_map : StateMap
  pub flips : List String
  pub removals : List Opened
  pub fixes : List OpenedHash

module _ (open_status_pr : String → ChainState → Reply)
    (open_chain_pr : Chain → List FlaggedEndpoint → Reply)
    (open_hash_pr : String → List HashMismatch → Reply) (run_workers : List Job → List Result)
    (now : Time) where
  -- `mismatches` are those that `runHashChecks` finds for the chains.
  unfoldable pub open_pr_flows :
      Cli
      → List Chain
      → List Job
      → StateMap
      → ℕ
      → List String
      → Dict Bool
      → Dict (List HashMismatch)
      → Dispatched
  open_pr_flows cli chains jobs m flagged candidates looks_dead mismatches =
      let flips = maybe_open_status_prs open_status_pr now cli candidates m in
      let untouched : OpenPrs.Run = record { state_map = flips.state_map; opened = [] } in
      let removals =
        if ltb 0 flagged
        then maybe_open_prs open_chain_pr now run_workers cli chains jobs flips.state_map looks_dead
        else untouched in
      let fixes =
        maybe_open_hash_prs open_hash_pr now mismatches cli chains removals.state_map looks_dead in
      record {
        state_map = fixes.state_map;
        flips = flips.opened;
        removals = removals.opened;
        fixes = fixes.opened;
      }
