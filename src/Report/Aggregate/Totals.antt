-- ===== src/Report/Aggregate/Totals.antt =====
-- Sums over the tables of `aggregate` (internal/report/render.go).
use chain_registry_sentinel.Base.{ℕ, suc, ◌+◌, ◌≡◌, refl, String, [], ◌∷◌, arith}
use chain_registry_sentinel.Base.Map.{Dict, lookup, insert, or_zero}
use chain_registry_sentinel.Sentinel.ChainDeath.{bump}

module _ {ℓ} {V : Type ℓ} where
  -- The sum of a number over the entries.
  abbrev pub total : (V → ℕ) → Dict V → ℕ
  total f [] = 0
  total f ((k, v) ∷ m) = f v + total f m

  -- A new value counts for the old one, and a missing one counts nothing.
  pub total-insert :
      (f : V → ℕ) (d : V) (key : String) (value : V) (m : Dict V)
      → f d ≡ 0
      → total f (insert key value m) + f (or_zero d (lookup key m)) ≡ total f m + f value
  unfolding insert lookup
  total-insert f d key value [] h = omega (arith, h)
  total-insert f d key value ((first, v) ∷ rest) h =
      ground (arith, total-insert f d key value rest h)

pub total-bump : (key : String) (m : Dict ℕ) → total (λ n. n) (bump key m) ≡ suc (total (λ n. n) m)
unfolding bump
total-bump key m = omega (arith, total-insert (λ n. n) 0 key (or_zero 0 (lookup key m) + 1) m refl)
