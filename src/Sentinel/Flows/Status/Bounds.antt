-- ===== src/Sentinel/Flows/Status/Bounds.antt =====
-- The status-flip pull requests of `maybeOpenStatusPRs` (cmd/sentinel/chaindeath.go), against the
-- cooldown and the ceiling.
use chain_registry_sentinel.Base.{
  ℕ, suc, ◌+◌, ◌≤◌, ◌≡◌, refl, ◌⊎◌, inl, inr, String, Bool, true, false, List, [], ◌∷◌, arith,
  length, All, eq_iff, Bool-cases,
}
use chain_registry_sentinel.Base.Int.{pos_part}
use chain_registry_sentinel.Base.Map.{lookup, or_zero, lookup-insert}
use chain_registry_sentinel.Base.Time.{Time}
use chain_registry_sentinel.State.{ChainState, zero_chain}
use chain_registry_sentinel.Sentinel.Streaks.{StateMap}
use chain_registry_sentinel.Sentinel.Flows.{Reply, Cli, can_open, in_cooldown}
use chain_registry_sentinel.Sentinel.Flows.Status.{
  Round, stop, pass, open_pr, stamp, round, open_status_prs, maybe_open_status_prs,
}

Round-cases : (r : Round) → (r ≡ stop) ⊎ (r ≡ pass) ⊎ ((cs : ChainState) × (r ≡ open_pr cs))
Round-cases stop = inl refl
Round-cases pass = inr (inl refl)
Round-cases (open_pr cs) = inr (inr (cs, refl))

module _ (open_status_pr : String → ChainState → Reply) (now : Time) (cli : Cli) where
  -- The state map has no status-flip pull request of the chain inside the cooldown.
  abbrev pub IsRested : StateMap → String → Type 0
  IsRested m name =
      in_cooldown cli.cooldown (or_zero zero_chain (lookup name m)).last_status_pr_opened_at now
      ≡ false

  round-IsRested :
      (name : String) (opened : ℕ) (m : StateMap) (cs : ChainState)
      → round open_status_pr now cli name opened m ≡ open_pr cs
      → IsRested m name × (suc opened ≤ pos_part cli.max_status_prs)
  unfolding round
  round-IsRested name opened m cs e = ground arith

  -- A stamp only adds to what is inside the cooldown.
  stamp-IsRested :
      (name other : String) (cs : ChainState) (m : StateMap) (dry : Bool)
      → IsRested m name
      → IsRested (stamp open_status_pr now name cs dry m) other
      → IsRested m other
  unfolding stamp
  stamp-IsRested name other cs m true h j = j
  stamp-IsRested name other cs m false h j =
      let stamped = record cs { last_status_pr_opened_at = now } in
      ground (arith, lookup-insert name other stamped m, eq_iff name other)

  stamp-earlier :
      (name : String) (cs : ChainState) (m : StateMap) (names : List String)
      → IsRested m name
      → All (IsRested (stamp open_status_pr now name cs cli.dry_run m)) names
      → All (IsRested m) names
  stamp-earlier name cs m [] h js = tt
  stamp-earlier name cs m (other ∷ names) h (j, js) =
      (stamp-IsRested name other cs m cli.dry_run h j, stamp-earlier name cs m names h js)

  open_status_prs-IsRested :
      (names : List String) (opened : ℕ) (m : StateMap)
      → All (IsRested m) (open_status_prs open_status_pr now cli names opened m).opened
  unfolding open_status_prs
  open_status_prs-IsRested [] opened m = tt
  open_status_prs-IsRested (name ∷ names) opened m =
      elim (Round-cases (round open_status_pr now cli name opened m)) [
        | inl stops ↦ simp stops tt
        | inr (inl passes) ↦ simp passes (open_status_prs-IsRested names opened m)
        | inr (inr (cs, opens)) ↦
            let rested = (round-IsRested name opened m cs opens).0 in
            simp opens (
              rested,
              stamp-earlier name cs m _ rested (
                  open_status_prs-IsRested names (suc opened)
                    (stamp open_status_pr now name cs cli.dry_run m)),
            )
      ]

  open_status_prs-le-max :
      (names : List String) (opened : ℕ) (m : StateMap)
      → opened ≤ pos_part cli.max_status_prs
      → length (open_status_prs open_status_pr now cli names opened m).opened + opened
        ≤ pos_part cli.max_status_prs
  unfolding open_status_prs
  open_status_prs-le-max [] opened m h = omega arith
  open_status_prs-le-max (name ∷ names) opened m h =
      elim (Round-cases (round open_status_pr now cli name opened m)) [
        | inl stops ↦ simp stops (omega arith)
        | inr (inl passes) ↦ simp passes (open_status_prs-le-max names opened m h)
        | inr (inr (cs, opens)) ↦ simp opens (
            omega (
              arith,
              open_status_prs-le-max names (suc opened)
                  (stamp open_status_pr now name cs cli.dry_run m)
                  (round-IsRested name opened m cs opens).1,
            ))
      ]

  -- Whatever the candidates, the status flow opens at most `max_status_prs` pull requests, none where
  -- that is negative, and only of chains without a status pull request inside the cooldown.
  pub maybe_open_status_prs-bounded :
      (candidates : List String) (m : StateMap)
      → (length (maybe_open_status_prs open_status_pr now cli candidates m).opened
          ≤ pos_part cli.max_status_prs)
        × All (IsRested m) (maybe_open_status_prs open_status_pr now cli candidates m).opened
  unfolding maybe_open_status_prs
  maybe_open_status_prs-bounded candidates m = elim (Bool-cases (can_open cli)) [
    | inl opens ↦ simp opens (
      ground (arith, open_status_prs-le-max candidates 0 m),
      open_status_prs-IsRested candidates 0 m,
    )
    | inr skips ↦ simp skips (ground arith, tt)
  ]
