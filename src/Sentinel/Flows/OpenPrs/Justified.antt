-- ===== src/Sentinel/Flows/OpenPrs/Justified.antt =====
-- The loop of `openPRs` (cmd/sentinel/prflow.go), against the flagged endpoints, the preflight and the
-- state before it.
use chain_registry_sentinel.Base.{
  ℕ, suc, ◌+◌, ◌≤◌, ◌≡◌, refl, ◌⊎◌, inl, inr, String, Bool, true, false, List, [], ◌∷◌, arith,
  length, All, eq_iff,
}
use chain_registry_sentinel.Base.Int.{ℤ, pos_part}
use chain_registry_sentinel.Base.Map.{Dict, lookup, or_zero, lookup-insert}
use chain_registry_sentinel.Base.Time.{Time, Duration}
use chain_registry_sentinel.Registry.{Chain}
use chain_registry_sentinel.State.{ChainState, zero_chain}
use chain_registry_sentinel.Sentinel.Streaks.{StateMap}
use chain_registry_sentinel.Sentinel.Flows.{Reply, in_cooldown, at_cap}
use chain_registry_sentinel.Sentinel.Flows.Endpoint.{FlaggedEndpoint, still_dead, is_empty}
use chain_registry_sentinel.Sentinel.Flows.OpenPrs.{
  Opened, Round, stop, pass, open_pr, try_open_chain_pr, stamp, round, open_prs,
}

module _ (open_chain_pr : Chain → List FlaggedEndpoint → Reply) (now : Time)
    (flagged : Dict (List FlaggedEndpoint)) (passed : Dict (Dict Bool)) (cooldown : Duration)
    (max_new : ℤ) (dry_run : Bool) where
  -- The pull request removes what the preflight left of the chain's flagged endpoints, and at
  -- least one; the state map has no pull request of the chain inside the cooldown.
  pub record IsJustified (m : StateMap) (o : Opened) : Type 0 where
    pub is_dead : o.dead ≡ still_dead passed o.chain.name (or_zero [] (lookup o.chain.name flagged))
    pub removes : is_empty o.dead ≡ false
    pub rested :
        in_cooldown cooldown (or_zero zero_chain (lookup o.chain.name m)).last_pr_opened_at now
        ≡ false

  Round-cases :
      (r : Round)
      → (r ≡ stop)
        ⊎ (r ≡ pass)
        ⊎ ((cs : ChainState) × (dead : List FlaggedEndpoint) × (r ≡ open_pr cs dead))
  Round-cases stop = inl refl
  Round-cases pass = inr (inl refl)
  Round-cases (open_pr cs dead) = inr (inr (cs, dead, refl))

  round-IsJustified :
      (ch : Chain) (opened : ℕ) (m : StateMap) (cs : ChainState) (dead : List FlaggedEndpoint)
      → round open_chain_pr now flagged passed cooldown max_new dry_run ch opened m
        ≡ open_pr cs dead
      → IsJustified m (record { chain = ch; dead = dead }) × at_cap opened max_new ≡ false
  unfolding round try_open_chain_pr
  round-IsJustified ch opened m cs dead e = ground arith

  below-cap : (opened : ℕ) → at_cap opened max_new ≡ false → suc opened ≤ pos_part max_new
  below-cap opened h = ground arith

  -- A stamp only adds to what is inside the cooldown.
  stamp-rested :
      (name other : String) (cs : ChainState) (m : StateMap) (dry : Bool)
      → in_cooldown cooldown (or_zero zero_chain (lookup name m)).last_pr_opened_at now ≡ false
      → in_cooldown cooldown
          (or_zero zero_chain
            (lookup other (stamp open_chain_pr now name cs dry m))).last_pr_opened_at
          now
        ≡ false
      → in_cooldown cooldown (or_zero zero_chain (lookup other m)).last_pr_opened_at now ≡ false
  unfolding stamp
  stamp-rested name other cs m true h j = j
  stamp-rested name other cs m false h j =
      let stamped = record cs { last_pr_opened_at = now } in
      ground (arith, lookup-insert name other stamped m, eq_iff name other)

  stamp-earlier :
      (name : String) (cs : ChainState) (m : StateMap) (os : List Opened)
      → in_cooldown cooldown (or_zero zero_chain (lookup name m)).last_pr_opened_at now ≡ false
      → All (IsJustified (stamp open_chain_pr now name cs dry_run m)) os
      → All (IsJustified m) os
  stamp-earlier name cs m [] h js = tt
  stamp-earlier name cs m (o ∷ os) h (j, js) = (
    record {
      is_dead = j.is_dead;
      removes = j.removes;
      rested = stamp-rested name o.chain.name cs m dry_run h j.rested;
    },
    stamp-earlier name cs m os h js,
  )

  pub open_prs-IsJustified :
      (chains : List Chain) (opened : ℕ) (m : StateMap)
      → All
          (IsJustified m)
          (open_prs open_chain_pr now flagged passed cooldown max_new dry_run chains opened
            m).opened
  unfolding open_prs
  open_prs-IsJustified [] opened m = tt
  open_prs-IsJustified (ch ∷ chains) opened m =
      elim (Round-cases
        (round open_chain_pr now flagged passed cooldown max_new dry_run ch opened m)) [
          | inl stops ↦ simp stops tt
          | inr (inl passes) ↦ simp passes (open_prs-IsJustified chains opened m)
          | inr (inr (cs, dead, opens)) ↦
              let (j, below) = round-IsJustified ch opened m cs dead opens in
              simp opens (
                j,
                stamp-earlier ch.name cs m _ j.rested (
                    open_prs-IsJustified chains (suc opened)
                      (stamp open_chain_pr now ch.name cs dry_run m)),
              )
        ]

  -- With at most `max_new` pull requests opened before, there are at most `max_new` behind.
  pub open_prs-le-max :
      (chains : List Chain) (opened : ℕ) (m : StateMap)
      → opened ≤ pos_part max_new
      → length
            (open_prs open_chain_pr now flagged passed cooldown max_new dry_run chains opened
              m).opened
          + opened
        ≤ pos_part max_new
  unfolding open_prs
  open_prs-le-max [] opened m h = omega arith
  open_prs-le-max (ch ∷ chains) opened m h =
      elim (Round-cases
        (round open_chain_pr now flagged passed cooldown max_new dry_run ch opened m)) [
          | inl stops ↦ simp stops (omega arith)
          | inr (inl passes) ↦ simp passes (open_prs-le-max chains opened m h)
          | inr (inr (cs, dead, opens)) ↦ simp opens (
              omega (
                arith,
                open_prs-le-max chains (suc opened) (stamp open_chain_pr now ch.name cs dry_run m)
                    (below-cap opened (round-IsJustified ch opened m cs dead opens).1),
              ))
        ]
