-- ===== src/Sentinel/Flows/OpenPrs/Removals.antt =====
-- `maybeOpenPRs` (cmd/sentinel/prflow.go) as a whole: which chains and endpoints its pull requests
-- name.
use chain_registry_sentinel.Base.{
  ◌≡◌, refl, inl, inr, ◌≤◌, String, Bool, true, false, not, none, List, [], ◌∷◌, arith, All,
  Bool-cases, Option-cases, eq_iff, subst, length, ◌&&◌,
}
use chain_registry_sentinel.Base.Int.{pos_part}
use chain_registry_sentinel.Base.Map.{
  Dict, lookup, or_zero, is_some, lookup-insert, lookup-filter_keys,
}
use chain_registry_sentinel.Base.Time.{Time}
use chain_registry_sentinel.Registry.{Chain}
use chain_registry_sentinel.Checks.Result.{Result}
use chain_registry_sentinel.State.{zero_chain}
use chain_registry_sentinel.Sentinel.Jobs.{Job}
use chain_registry_sentinel.Sentinel.Streaks.{StateMap}
use chain_registry_sentinel.Sentinel.Flows.{Reply, Cli, in_cooldown, can_open}
use chain_registry_sentinel.Sentinel.Flows.Endpoint.{
  FlaggedEndpoint, flagged_key, collect_flagged, exclude_chains, preflight, rescue_all,
  rescue_chain, apply_preflight_results, has_passed, still_dead, is_empty,
}
use chain_registry_sentinel.Sentinel.Flows.OpenPrs.{Opened, maybe_open_prs}
use chain_registry_sentinel.Sentinel.Flows.OpenPrs.Justified.{
  IsJustified, open_prs-IsJustified, open_prs-le-max,
}
use chain_registry_sentinel.Sentinel.Flows.OpenPrs.Failing.{
  HasFailed, collect_flagged-HasFailed, still_dead-HasFailed,
}

-- The rescue of endpoints leaves the time of the last pull request alone.
rescue_chain-opened_at :
    (passed : Dict (Dict Bool)) (now : Time) (name other : String) (eps : List FlaggedEndpoint)
    (m : StateMap)
    → (or_zero zero_chain (lookup other (rescue_chain passed now name eps m))).last_pr_opened_at
      ≡ (or_zero zero_chain (lookup other m)).last_pr_opened_at
unfolding rescue_chain
rescue_chain-opened_at passed now name other eps m = elim (Option-cases (lookup name m)) [
  | inl missing ↦ simp missing refl
  | inr (cs, found) ↦
      let rescued = record cs { endpoints = rescue_all passed name now eps cs.endpoints } in
      ground (arith, found, lookup-insert name other rescued m, eq_iff name other)
]

apply_preflight_results-opened_at :
    (flagged : Dict (List FlaggedEndpoint)) (passed : Dict (Dict Bool)) (now : Time) (m : StateMap)
    (other : String)
    → (or_zero zero_chain
        (lookup other (apply_preflight_results m flagged passed now))).last_pr_opened_at
      ≡ (or_zero zero_chain (lookup other m)).last_pr_opened_at
unfolding apply_preflight_results
apply_preflight_results-opened_at [] passed now m other = refl
apply_preflight_results-opened_at ((name, eps) ∷ flagged) passed now m other =
    rw
      (apply_preflight_results-opened_at flagged passed now (rescue_chain passed now name eps m)
        other)
      (rescue_chain-opened_at passed now name other eps m)

module _ (open_chain_pr : Chain → List FlaggedEndpoint → Reply) (now : Time)
    (run_workers : List Job → List Result) (cli : Cli) (jobs : List Job) (m : StateMap)
    (exclude : Dict Bool) where
  -- What the flow flags, and what the preflight finds alive.
  abbrev pub flagged : Dict (List FlaggedEndpoint)
  flagged = exclude_chains exclude (collect_flagged m cli.min_failures)

  abbrev pub passed : Dict (Dict Bool)
  passed = preflight run_workers flagged jobs

  -- The chain is not excluded and not in the cooldown; the pull request removes an endpoint, and
  -- each one that it removes has failed `min_failures` times in the chain's state and did not pass the
  -- preflight.
  pub record IsRemoval (o : Opened) : Type 0 where
    pub allowed : lookup o.chain.name exclude ≡ none
    pub removes : is_empty o.dead ≡ false
    pub failing :
        All
          (λ ep.
            HasFailed m cli.min_failures o.chain.name ep
            × (has_passed passed o.chain.name (flagged_key ep) ≡ false))
          o.dead
    pub rested :
        in_cooldown cli.cooldown (or_zero zero_chain (lookup o.chain.name m)).last_pr_opened_at now
        ≡ false

  looked_up : String → List FlaggedEndpoint
  looked_up name = or_zero [] (lookup name flagged)

  flagged-excluded : (name : String) → is_some (lookup name exclude) ≡ true → looked_up name ≡ []
  unfolding looked_up exclude_chains
  flagged-excluded name h =
      let found = collect_flagged m cli.min_failures in
      ground (arith, h, lookup-filter_keys (λ k. not (is_some (lookup k exclude))) name found)

  nothing_left : (name : String) → still_dead passed name [] ≡ []
  unfolding still_dead
  nothing_left name = refl

  flagged-allowed :
      (name : String)
      → is_empty (still_dead passed name (looked_up name)) ≡ false
      → lookup name exclude ≡ none
  flagged-allowed name h = elim (Option-cases (lookup name exclude)) [
    | inl absent ↦ absent
    | inr (b, present) ↦ ground (arith, flagged-excluded name, nothing_left name)
  ]

  flagged-HasFailed : (name : String) → All (HasFailed m cli.min_failures name) (looked_up name)
  unfolding looked_up exclude_chains
  flagged-HasFailed name =
      let found = collect_flagged m cli.min_failures in
      let all = collect_flagged-HasFailed m cli.min_failures name m (λ x l. l) in
      let filtered = lookup-filter_keys (λ k. not (is_some (lookup k exclude))) name found in
      elim (Bool-cases (is_some (lookup name exclude))) [
        | inl out ↦ rw (filtered, out) tt
        | inr stays ↦ rw (filtered, stays) all
      ]

  rescued : StateMap
  rescued = apply_preflight_results m flagged passed now

  justified-IsRemoval :
      (o : Opened)
      → IsJustified open_chain_pr now flagged passed cli.cooldown cli.max_endpoint_prs cli.dry_run
          rescued o
      → IsRemoval o
  unfolding rescued looked_up
  justified-IsRemoval o j =
      let name = o.chain.name in
      let some_left = subst (λ eps. is_empty eps ≡ false) j.is_dead j.removes in
      record {
        allowed = flagged-allowed name some_left;
        removes = j.removes;
        failing = rw j.is_dead (
            still_dead-HasFailed m cli.min_failures passed name (looked_up name)
              (flagged-HasFailed name));
        rested = rw (apply_preflight_results-opened_at flagged passed now m name) at j.rested;
      }

  justified-all :
      (os : List Opened)
      → All
          (IsJustified open_chain_pr now flagged passed cli.cooldown cli.max_endpoint_prs
            cli.dry_run rescued)
          os
      → All IsRemoval os
  justified-all [] js = tt
  justified-all (o ∷ os) (j, js) = (justified-IsRemoval o j, justified-all os js)

  -- Every pull request that the endpoint-removal flow opens, in a run of any outcome, is of a chain
  -- that is not excluded and has no pull request inside the cooldown; it removes at least one
  -- endpoint, and only ones whose check (never a chain-ID check) and address are the two parts of a key
  -- of the chain's state that has at least `min_failures` consecutive failures, and which did not pass
  -- the preflight.
  pub maybe_open_prs-IsRemoval :
      (chains : List Chain)
      → All IsRemoval
          (maybe_open_prs open_chain_pr now run_workers cli chains jobs m exclude).opened
  unfolding maybe_open_prs rescued
  maybe_open_prs-IsRemoval chains = elim (Bool-cases (can_open cli && not (is_empty flagged))) [
    | inl opens ↦ simp opens (
        justified-all _ (
          open_prs-IsJustified open_chain_pr now flagged passed cli.cooldown cli.max_endpoint_prs
            cli.dry_run chains 0 rescued))
    | inr skips ↦ simp skips tt
  ]

  -- The endpoint-removal flow opens at most `max_endpoint_prs` pull requests, and none where that is
  -- negative.
  pub maybe_open_prs-le-max :
      (chains : List Chain)
      → length (maybe_open_prs open_chain_pr now run_workers cli chains jobs m exclude).opened
        ≤ pos_part cli.max_endpoint_prs
  unfolding maybe_open_prs rescued
  maybe_open_prs-le-max chains =
      let most =
        open_prs-le-max open_chain_pr now flagged passed cli.cooldown cli.max_endpoint_prs
          cli.dry_run chains 0 rescued in
      elim (Bool-cases (can_open cli && not (is_empty flagged))) [
        | inl opens ↦ simp opens (ground (arith, most))
        | inr skips ↦ simp skips (omega arith)
      ]
