-- ===== src/Sentinel/Flows/Hash/Bounds.antt =====
-- The hash-fix pull requests of `maybeOpenHashPRs` (cmd/sentinel/hashpr.go), against the mismatches,
-- the exclusions, the cooldown and the ceiling.
use chain_registry_sentinel.Base.{
  ℕ, suc, ◌+◌, ◌≤◌, ◌≡◌, refl, ◌⊎◌, inl, inr, String, Bool, true, false, List, [], ◌∷◌, arith,
  length, All, eq_iff, Bool-cases,
}
use chain_registry_sentinel.Base.Int.{pos_part}
use chain_registry_sentinel.Base.Map.{Dict, lookup, or_zero, lookup-insert}
use chain_registry_sentinel.Base.Time.{Time}
use chain_registry_sentinel.Registry.{Chain}
use chain_registry_sentinel.Checks.IbcHash.{HashMismatch}
use chain_registry_sentinel.State.{ChainState, zero_chain}
use chain_registry_sentinel.Sentinel.Streaks.{StateMap}
use chain_registry_sentinel.Sentinel.Flows.{Reply, Cli, can_open, in_cooldown}
use chain_registry_sentinel.Sentinel.Flows.Hash.{
  OpenedHash, Round, stop, pass, open_pr, is_empty, is_excluded, try_open_hash_pr, stamp, round,
  open_hash_prs, maybe_open_hash_prs,
}

Round-cases :
    (r : Round)
    → (r ≡ stop) ⊎ (r ≡ pass) ⊎ ((cs : ChainState) × (mm : List HashMismatch) × (r ≡ open_pr cs mm))
Round-cases stop = inl refl
Round-cases pass = inr (inl refl)
Round-cases (open_pr cs mm) = inr (inr (cs, mm, refl))

module _ (open_hash_pr : String → List HashMismatch → Reply) (now : Time)
    (mismatches : Dict (List HashMismatch)) (exclude : Dict Bool) (cli : Cli) where
  -- The chain is not excluded, its mismatches are those found and not none, and the state map has
  -- no hash-fix pull request of it inside the cooldown.
  pub record IsFix (m : StateMap) (o : OpenedHash) : Type 0 where
    pub allowed : is_excluded exclude o.chain_name ≡ false
    pub is_found : o.mm ≡ or_zero [] (lookup o.chain_name mismatches)
    pub fixes : is_empty o.mm ≡ false
    pub rested :
        in_cooldown cli.cooldown
          (or_zero zero_chain (lookup o.chain_name m)).last_hash_pr_opened_at
          now
        ≡ false

  round-IsFix :
      (ch : Chain) (opened : ℕ) (m : StateMap) (cs : ChainState) (mm : List HashMismatch)
      → round open_hash_pr now mismatches exclude cli ch opened m ≡ open_pr cs mm
      → IsFix m (record { chain_name = ch.name; mm = mm })
        × (suc opened ≤ pos_part cli.max_hash_prs)
  unfolding round try_open_hash_pr
  round-IsFix ch opened m cs mm e = ground arith

  -- A stamp only adds to what is inside the cooldown.
  stamp-rested :
      (name other : String) (cs : ChainState) (m : StateMap) (dry : Bool)
      → in_cooldown cli.cooldown (or_zero zero_chain (lookup name m)).last_hash_pr_opened_at now
        ≡ false
      → in_cooldown cli.cooldown
          (or_zero zero_chain
            (lookup other (stamp open_hash_pr now name cs dry m))).last_hash_pr_opened_at
          now
        ≡ false
      → in_cooldown cli.cooldown (or_zero zero_chain (lookup other m)).last_hash_pr_opened_at now
        ≡ false
  unfolding stamp
  stamp-rested name other cs m true h j = j
  stamp-rested name other cs m false h j =
      let stamped = record cs { last_hash_pr_opened_at = now } in
      ground (arith, lookup-insert name other stamped m, eq_iff name other)

  stamp-earlier :
      (name : String) (cs : ChainState) (m : StateMap) (os : List OpenedHash)
      → in_cooldown cli.cooldown (or_zero zero_chain (lookup name m)).last_hash_pr_opened_at now
        ≡ false
      → All (IsFix (stamp open_hash_pr now name cs cli.dry_run m)) os
      → All (IsFix m) os
  stamp-earlier name cs m [] h js = tt
  stamp-earlier name cs m (o ∷ os) h (j, js) = (
    record {
      allowed = j.allowed;
      is_found = j.is_found;
      fixes = j.fixes;
      rested = stamp-rested name o.chain_name cs m cli.dry_run h j.rested;
    },
    stamp-earlier name cs m os h js,
  )

  open_hash_prs-IsFix :
      (chains : List Chain) (opened : ℕ) (m : StateMap)
      → All (IsFix m) (open_hash_prs open_hash_pr now mismatches exclude cli chains opened m).opened
  unfolding open_hash_prs
  open_hash_prs-IsFix [] opened m = tt
  open_hash_prs-IsFix (ch ∷ chains) opened m =
      elim (Round-cases (round open_hash_pr now mismatches exclude cli ch opened m)) [
        | inl stops ↦ simp stops tt
        | inr (inl passes) ↦ simp passes (open_hash_prs-IsFix chains opened m)
        | inr (inr (cs, mm, opens)) ↦
            let fix = (round-IsFix ch opened m cs mm opens).0 in
            simp opens (
              fix,
              stamp-earlier ch.name cs m _ fix.rested (
                  open_hash_prs-IsFix chains (suc opened)
                    (stamp open_hash_pr now ch.name cs cli.dry_run m)),
            )
      ]

  open_hash_prs-le-max :
      (chains : List Chain) (opened : ℕ) (m : StateMap)
      → opened ≤ pos_part cli.max_hash_prs
      → length (open_hash_prs open_hash_pr now mismatches exclude cli chains opened m).opened
          + opened
        ≤ pos_part cli.max_hash_prs
  unfolding open_hash_prs
  open_hash_prs-le-max [] opened m h = omega arith
  open_hash_prs-le-max (ch ∷ chains) opened m h =
      elim (Round-cases (round open_hash_pr now mismatches exclude cli ch opened m)) [
        | inl stops ↦ simp stops (omega arith)
        | inr (inl passes) ↦ simp passes (open_hash_prs-le-max chains opened m h)
        | inr (inr (cs, mm, opens)) ↦ simp opens (
            omega (
              arith,
              open_hash_prs-le-max chains (suc opened)
                  (stamp open_hash_pr now ch.name cs cli.dry_run m)
                  (round-IsFix ch opened m cs mm opens).1,
            ))
      ]

  -- Whatever the chains, the hash-fix flow opens at most `max_hash_prs` pull requests, none where that
  -- is negative. Each is of a chain that is not excluded and has no hash-fix pull request inside the
  -- cooldown, and fixes the mismatches that were found for the chain, at least one.
  pub maybe_open_hash_prs-bounded :
      (chains : List Chain) (m : StateMap)
      → (length (maybe_open_hash_prs open_hash_pr now mismatches cli chains m exclude).opened
          ≤ pos_part cli.max_hash_prs)
        × All
            (IsFix m)
            (maybe_open_hash_prs open_hash_pr now mismatches cli chains m exclude).opened
  unfolding maybe_open_hash_prs
  maybe_open_hash_prs-bounded chains m = elim (Bool-cases (can_open cli)) [
    | inl opens ↦
        simp opens (ground (arith, open_hash_prs-le-max chains 0 m), open_hash_prs-IsFix chains 0 m)
    | inr skips ↦ simp skips (ground arith, tt)
  ]
