-- ===== src/Sentinel/Flows/OpenPrs.antt =====
-- cmd/sentinel/prflow.go: `tryOpenChainPR`, `openPRs` and the gate `maybeOpenPRs`.
pub mod Justified
pub mod Failing
pub mod Removals
use chain_registry_sentinel.Base.{
  ℕ, suc, String, Bool, true, false, ◌&&◌, ◌||◌, not, List, [], ◌∷◌, if◌then◌else◌,
}
use chain_registry_sentinel.Base.Int.{ℤ}
use chain_registry_sentinel.Base.Map.{Dict, lookup, insert, or_zero}
use chain_registry_sentinel.Base.Time.{Time, Duration}
use chain_registry_sentinel.Registry.{Chain}
use chain_registry_sentinel.Checks.Result.{Result}
use chain_registry_sentinel.State.{ChainState, zero_chain}
use chain_registry_sentinel.Sentinel.Jobs.{Job}
use chain_registry_sentinel.Sentinel.Streaks.{StateMap}
use chain_registry_sentinel.Sentinel.Flows.{Reply, has_opened, Cli, can_open, in_cooldown, at_cap}
use chain_registry_sentinel.Sentinel.Flows.Endpoint.{
  FlaggedEndpoint, collect_flagged, exclude_chains, preflight, apply_preflight_results, still_dead,
  is_empty,
}

-- A pull request that was opened, or would be in a dry run.
pub record Opened : Type 0 where
  pub chain : Chain
  pub dead : List FlaggedEndpoint

-- The state map behind the loop, and the pull requests in the order of opening.
pub record Run : Type 0 where
  pub state_map : StateMap
  pub opened : List Opened

pub data Round : Type 0 where
  stop pass : Round
  open_pr : ChainState → List FlaggedEndpoint → Round

module _ (open_chain_pr : Chain → List FlaggedEndpoint → Reply) (now : Time) where
  unfoldable pub try_open_chain_pr :
      Chain → List FlaggedEndpoint → ChainState → Duration → Bool → Bool
  unfolding in_cooldown
  try_open_chain_pr chain dead cs cooldown dry_run =
      if in_cooldown cooldown cs.last_pr_opened_at now
      then false
      else dry_run || has_opened (open_chain_pr chain dead)

  -- `cs.LastPROpenedAt = now; stateMap[ch.Name] = cs`, unless in a dry run.
  unfoldable pub stamp : String → ChainState → Bool → StateMap → StateMap
  stamp name cs true m = m
  stamp name cs false m = insert name (record cs { last_pr_opened_at = now }) m

  abbrev pub cons_opened : Opened → Run → Run
  cons_opened o run = record run { opened = o ∷ run.opened }

  -- What one round of the loop does: `break`, `continue`, or a pull request that is opened.
  unfoldable pub round :
      Dict (List FlaggedEndpoint)
      → Dict (Dict Bool)
      → Duration
      → ℤ
      → Bool
      → Chain
      → ℕ
      → StateMap
      → Round
  unfolding still_dead try_open_chain_pr
  round flagged passed cooldown max_new dry_run ch opened m =
      let dead = still_dead passed ch.name (or_zero [] (lookup ch.name flagged)) in
      let cs = or_zero zero_chain (lookup ch.name m) in
      if at_cap opened max_new
      then stop
      else if is_empty dead
      then pass
      else if try_open_chain_pr ch dead cs cooldown dry_run
      then open_pr cs dead
      else pass

  -- What follows from a round, where `rest` is the rest of the loop.
  abbrev pub proceed : (ℕ → StateMap → Run) → Bool → Chain → ℕ → StateMap → Round → Run
  proceed rest dry_run ch opened m stop = record { state_map = m; opened = [] }
  proceed rest dry_run ch opened m pass = rest opened m
  proceed rest dry_run ch opened m (open_pr cs dead) =
      cons_opened (record { chain = ch; dead = dead })
        (rest (suc opened) (stamp ch.name cs dry_run m))

  -- The loop of `openPRs`.
  unfoldable pub open_prs :
      Dict (List FlaggedEndpoint)
      → Dict (Dict Bool)
      → Duration
      → ℤ
      → Bool
      → List Chain
      → ℕ
      → StateMap
      → Run
  unfolding round
  open_prs flagged passed cooldown max_new dry_run [] opened m = record {
    state_map = m;
    opened = [];
  }
  open_prs flagged passed cooldown max_new dry_run (ch ∷ chains) opened m =
      proceed (open_prs flagged passed cooldown max_new dry_run chains) dry_run ch opened m
        (round flagged passed cooldown max_new dry_run ch opened m)

  -- `maybeOpenPRs`; `run_workers` stands for the probes of the flagged jobs. Nothing is saved here:
  -- `saveStateMap` writes the state map of the result, unless in a dry run.
  unfoldable pub maybe_open_prs :
      (List Job → List Result) → Cli → List Chain → List Job → StateMap → Dict Bool → Run
  unfolding can_open collect_flagged exclude_chains preflight apply_preflight_results open_prs
  maybe_open_prs run_workers cli chains jobs m exclude =
      let flagged = exclude_chains exclude (collect_flagged m cli.min_failures) in
      let passed = preflight run_workers flagged jobs in
      let m' = apply_preflight_results m flagged passed now in
      if can_open cli && not (is_empty flagged)
      then open_prs flagged passed cli.cooldown cli.max_endpoint_prs cli.dry_run chains 0 m'
      else record { state_map = m; opened = [] }
