-- ===== src/Sentinel/Summary/Fields.antt =====
-- The counters of `chainStats` (cmd/sentinel/summary.go), each with the results that raise it.
use chain_registry_sentinel.Base.{
  ℕ, suc, ◌+◌, ◌≡◌, refl, String, Bool, true, false, not, ◌&&◌, some, List, [], ◌∷◌, if◌then◌else◌,
  str_eq, eq_iff, count, arith,
}
use chain_registry_sentinel.Base.Map.{Dict, lookup, insert, or_zero, lookup-insert}
use chain_registry_sentinel.Checks.Result.{Result}
use chain_registry_sentinel.Sentinel.Summary.{
  ChainStats, no_chain_stats, check_kind, count_kind, stats_key, count_one, count_all,
}

abbrev pub stats_at : String → Dict ChainStats → ChainStats
stats_at key per_chain = or_zero no_chain_stats (lookup key per_chain)

stats_at-insert :
    (key wanted : String) (s : ChainStats) (m : Dict ChainStats)
    → stats_at wanted (insert key s m) ≡ (if str_eq key wanted then s else stats_at wanted m)
stats_at-insert key wanted s m = rw (lookup-insert key wanted s m) (choice (str_eq key wanted))
  where
    choice :
        (b : Bool)
        → or_zero no_chain_stats (if b then some s else lookup wanted m)
          ≡ (if b then s else stats_at wanted m)
    choice true = refl
    choice false = refl

-- The sum of a counter over all chains.
abbrev pub sum_of : (ChainStats → ℕ) → Dict ChainStats → ℕ
sum_of f [] = 0
sum_of f ((k, s) ∷ m) = f s + sum_of f m

module _ (f : ChainStats → ℕ) (zero_at : f no_chain_stats ≡ 0) where
  sum_of-insert :
      (key : String) (s : ChainStats) (m : Dict ChainStats)
      → sum_of f (insert key s m) + f (stats_at key m) ≡ sum_of f m + f s
  unfolding insert lookup
  sum_of-insert key s [] = omega (arith, zero_at)
  sum_of-insert key s ((k, v) ∷ m) = ground (arith, sum_of-insert key s m)

  -- `raised r` says whether the code raises the counter at `r`, when `r` is not skipped.
  module _ (raised : Result → Bool)
      (raise : (r : Result) (s : ChainStats)
        → f (count_kind (check_kind r.check) r s) ≡ (if raised r then suc (f s) else f s)) where
    count_one-stats_at :
        (key : String) (r : Result) (m : Dict ChainStats)
        → f (stats_at key (count_one r m)) ≡ (
            if not r.skipped && str_eq (stats_key r) key && raised r
            then suc (f (stats_at key m))
            else f (stats_at key m))
    unfolding count_one
    count_one-stats_at key r m =
        let s = stats_at (stats_key r) m in
        ground (
          arith,
          raise r s,
          eq_iff (stats_key r) key,
          stats_at-insert (stats_key r) key (count_kind (check_kind r.check) r s) m,
        )

    pub count_all-stats_at :
        (key : String) (rs : List Result) (m : Dict ChainStats)
        → f (stats_at key (count_all rs m))
          ≡ f (stats_at key m)
            + count (λ r. not r.skipped && str_eq (stats_key r) key && raised r) rs
    unfolding count_all
    count_all-stats_at key [] m = omega arith
    count_all-stats_at key (r ∷ rs) m =
        ground (arith, count_one-stats_at key r m, count_all-stats_at key rs (count_one r m))

    count_one-sum_of :
        (r : Result) (m : Dict ChainStats)
        → sum_of f (count_one r m)
          ≡ (if not r.skipped && raised r then suc (sum_of f m) else sum_of f m)
    unfolding count_one
    count_one-sum_of r m =
        let s = stats_at (stats_key r) m in
        ground
          (arith, raise r s, sum_of-insert (stats_key r) (count_kind (check_kind r.check) r s) m)

    pub count_all-sum_of :
        (rs : List Result) (m : Dict ChainStats)
        → sum_of f (count_all rs m) ≡ sum_of f m + count (λ r. not r.skipped && raised r) rs
    unfolding count_all
    count_all-sum_of [] m = omega arith
    count_all-sum_of (r ∷ rs) m =
        ground (arith, count_one-sum_of r m, count_all-sum_of rs (count_one r m))
