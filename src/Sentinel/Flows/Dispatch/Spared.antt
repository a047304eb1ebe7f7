-- ===== src/Sentinel/Flows/Dispatch/Spared.antt =====
-- `openPRFlows` behind `runChainDeathDetection` (cmd/sentinel): the pull requests of chains that look
-- dead.
use chain_registry_sentinel.Base.{
  ℕ, ◌≡◌, ◌≢◌, inl, inr, String, Bool, true, false, some, List, [], ◌∷◌, ltb, All, Bool-cases, ap,
  sym, ◌∙◌,
}
use chain_registry_sentinel.Base.Int.{ℤ}
use chain_registry_sentinel.Base.Map.{Dict, lookup, or_zero}
use chain_registry_sentinel.Base.Time.{Time, Duration}
use chain_registry_sentinel.Registry.{Chain}
use chain_registry_sentinel.Checks.Result.{Result}
use chain_registry_sentinel.Checks.IbcHash.{HashMismatch}
use chain_registry_sentinel.State.{ChainState}
use chain_registry_sentinel.Sentinel.Jobs.{Job}
use chain_registry_sentinel.Sentinel.Streaks.{StateMap}
use chain_registry_sentinel.Sentinel.ChainDeath.{
  ChainDeathFacts, build_chain_death_facts, vantage_suspect, run_chain_death_detection,
}
use chain_registry_sentinel.Sentinel.ChainDeath.LooksDead.{
  IsDying, run_chain_death_detection-looks_dead,
}
use chain_registry_sentinel.Sentinel.Flows.{Reply, Cli}
use chain_registry_sentinel.Sentinel.Flows.Endpoint.{FlaggedEndpoint}
use chain_registry_sentinel.Sentinel.Flows.OpenPrs.{Opened}
use chain_registry_sentinel.Sentinel.Flows.OpenPrs.Removals.{IsRemoval, maybe_open_prs-IsRemoval}
use chain_registry_sentinel.Sentinel.Flows.OpenPrs.{maybe_open_prs}
use chain_registry_sentinel.Sentinel.Flows.Hash.{OpenedHash, is_excluded}
use chain_registry_sentinel.Sentinel.Flows.Hash.Bounds.{IsFix, maybe_open_hash_prs-bounded}
use chain_registry_sentinel.Sentinel.Flows.Status.{maybe_open_status_prs}
use chain_registry_sentinel.Sentinel.Flows.Dispatch.{Dispatched, open_pr_flows}

-- None of the pull requests is of the chain.
pub record Spares (name : String) (d : Dispatched) : Type 0 where
  pub no_removal : All (λ o. o.chain.name ≢ name) d.removals
  pub no_fix : All (λ o. o.chain_name ≢ name) d.fixes

module _ (open_status_pr : String → ChainState → Reply)
    (open_chain_pr : Chain → List FlaggedEndpoint → Reply)
    (open_hash_pr : String → List HashMismatch → Reply) (run_workers : List Job → List Result)
    (now : Time) (cli : Cli) (jobs : List Job) where
  removals-spare :
      (name : String) (m : StateMap) (exclude : Dict Bool) (os : List Opened)
      → lookup name exclude ≡ some true
      → All (IsRemoval open_chain_pr now run_workers cli jobs m exclude) os
      → All (λ o. o.chain.name ≢ name) os
  removals-spare name m exclude [] h rs = tt
  removals-spare name m exclude (o ∷ os) h (r, rs) = (
    λ same. cc (sym r.allowed ∙ ap (λ k. lookup k exclude) same ∙ h),
    removals-spare name m exclude os h rs,
  )

  fixes-spare :
      (name : String) (m : StateMap) (mismatches : Dict (List HashMismatch)) (exclude : Dict Bool)
      (os : List OpenedHash)
      → lookup name exclude ≡ some true
      → All (IsFix open_hash_pr now mismatches exclude cli m) os
      → All (λ o. o.chain_name ≢ name) os
  fixes-spare name m mismatches exclude [] h rs = tt
  fixes-spare name m mismatches exclude (o ∷ os) h (r, rs) = (
    λ same. cc (sym r.allowed ∙ ap (λ k. is_excluded exclude k) same ∙ ap (or_zero false) h),
    fixes-spare name m mismatches exclude os h rs,
  )

  open_pr_flows-spare :
      (chains : List Chain) (m : StateMap) (flagged : ℕ) (candidates : List String)
      (looks_dead : Dict Bool) (mismatches : Dict (List HashMismatch)) (name : String)
      → lookup name looks_dead ≡ some true
      → Spares name (
          open_pr_flows open_status_pr open_chain_pr open_hash_pr run_workers now cli chains jobs m
            flagged candidates looks_dead mismatches)
  unfolding open_pr_flows
  open_pr_flows-spare chains m flagged candidates looks_dead mismatches name h =
      let flips = maybe_open_status_prs open_status_pr now cli candidates m in
      let open_all =
        maybe_open_prs-IsRemoval open_chain_pr now run_workers cli jobs flips.state_map looks_dead
          chains in
      elim (Bool-cases (ltb 0 flagged)) [
        | inl some_flagged ↦
            let removals =
              maybe_open_prs open_chain_pr now run_workers cli chains jobs flips.state_map
                looks_dead in
            let bounded =
              maybe_open_hash_prs-bounded open_hash_pr now mismatches looks_dead cli chains
                removals.state_map in
            simp some_flagged (record {
              no_removal = removals-spare name flips.state_map looks_dead _ h open_all;
              no_fix = fixes-spare name removals.state_map mismatches looks_dead _ h bounded.1;
            })
        | inr none_flagged ↦
            let bounded =
              maybe_open_hash_prs-bounded open_hash_pr now mismatches looks_dead cli chains
                flips.state_map in
            simp none_flagged (record {
              no_removal = tt;
              no_fix = fixes-spare name flips.state_map mismatches looks_dead _ h bounded.1;
            })
      ]

  module _ (endpoint_domain endpoint_host : String → String) (stale_after : Duration)
      (min_runs : ℤ) where
    -- In a run whose vantage is not suspect, a chain that is listed with a core endpoint and looks
    -- dead gets no endpoint-removal and no hash-fix pull request, whatever is flagged or mismatched.
    pub open_pr_flows-Spares :
        (results : List Result) (m : StateMap) (chains : List Chain) (flagged : ℕ)
        (mismatches : Dict (List HashMismatch)) (name : String) {f : ChainDeathFacts}
        → vantage_suspect results ≡ false
        → lookup name
            (build_chain_death_facts endpoint_domain endpoint_host results now stale_after).0
          ≡ some f
        → IsDying f
            (build_chain_death_facts endpoint_domain endpoint_host results now stale_after).1
        → (let d =
              run_chain_death_detection endpoint_domain endpoint_host results m min_runs stale_after
                now in
            Spares name (
              open_pr_flows open_status_pr open_chain_pr open_hash_pr run_workers now cli chains
                jobs d.state_map flagged d.candidates d.looks_dead mismatches))
    open_pr_flows-Spares results m chains flagged mismatches name clear found dying =
        let d =
          run_chain_death_detection endpoint_domain endpoint_host results m min_runs stale_after
            now in
        open_pr_flows-spare chains d.state_map flagged d.candidates d.looks_dead mismatches name (
          run_chain_death_detection-looks_dead endpoint_domain endpoint_host now stale_after results
            m min_runs name clear found dying)
