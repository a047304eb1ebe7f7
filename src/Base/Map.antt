-- ===== src/Base/Map.antt =====
-- Go maps with text keys, as association lists. A program's `map` has each key once: `Distinct`.
use Prim.Native.String.{String}
use mathlib.Core.Path.{◌≡◌, refl}
use mathlib.Core.Logic.{inl, inr}
use mathlib.Core.Bool.{Bool, true, false}
use mathlib.Core.Option.{Option, none, some}
use mathlib.Core.List.{List, [], ◌∷◌}
use native.Mathlib.Omega.{arith}
use text.Mathlib.Text.{◌==◌ as str_eq}
use text.Mathlib.TextEquality.{eq_iff}
use text.Mathlib.TextPositions.{eq_refl}
use chain_registry_sentinel.Base.Tests.{if◌then◌else◌, Bool-cases}

-- The value of an optional lookup, or Go's zero value.
abbrev pub or_zero {ℓ} : {A : Type ℓ} → A → Option A → A
or_zero d none = d
or_zero d (some a) = a

abbrev pub is_some {ℓ} : {A : Type ℓ} → Option A → Bool
is_some none = false
is_some (some _) = true

abbrev pub Dict {ℓ} : Type ℓ → Type ℓ
Dict V = List (String × V)

module _ {ℓ} {V : Type ℓ} where
  -- `v, ok := m[key]`.
  unfoldable pub lookup : String → Dict V → Option V
  lookup key [] = none
  lookup key ((first, v) ∷ rest) = if str_eq first key then some v else lookup key rest

  -- `m[key] = value`.
  unfoldable pub insert : String → V → Dict V → Dict V
  insert key value [] = (key, value) ∷ []
  insert key value ((first, v) ∷ rest) =
      if str_eq first key then (key, value) ∷ rest else (first, v) ∷ insert key value rest

  -- `for k := range m { if !keep(k) { delete(m, k) } }`.
  unfoldable pub filter_keys : (String → Bool) → Dict V → Dict V
  filter_keys p [] = []
  filter_keys p ((j, w) ∷ m) = let rest = filter_keys p m in if p j then (j, w) ∷ rest else rest

  -- Each key stands once.
  abbrev pub Distinct : Dict V → Type ℓ
  Distinct [] = Unit
  Distinct ((j, w) ∷ m) = (lookup j m ≡ none) × Distinct m

  pub lookup-insert :
      (key wanted : String) (value : V) (m : Dict V)
      → lookup wanted (insert key value m)
        ≡ (if str_eq key wanted then some value else lookup wanted m)
  unfolding lookup insert
  lookup-insert key wanted value [] = refl
  lookup-insert key wanted value ((first, v) ∷ rest) = ground (
    arith,
    lookup-insert key wanted value rest,
    eq_iff first wanted,
    eq_iff first key,
    eq_iff key wanted,
  )

  pub lookup-insert_self : (k : String) (v : V) (m : Dict V) → lookup k (insert k v m) ≡ some v
  lookup-insert_self k v m = rw (lookup-insert k k v m, eq_refl k)

  pub insert-Distinct : (k : String) (v : V) (m : Dict V) → Distinct m → Distinct (insert k v m)
  unfolding lookup insert
  insert-Distinct k v [] h = (refl, tt)
  insert-Distinct k v ((i, w) ∷ m) h =
      ground (arith, eq_iff k i, eq_iff i k, lookup-insert k i v m, insert-Distinct k v m)

  pub lookup-filter_keys :
      (p : String → Bool) (k : String) (m : Dict V)
      → lookup k (filter_keys p m) ≡ (if p k then lookup k m else none)
  unfolding lookup filter_keys
  lookup-filter_keys p k [] = ground arith
  lookup-filter_keys p k ((i, w) ∷ m) = elim (Bool-cases (str_eq i k)) [
    | inl same ↦ rw ((eq_iff i k).0 same) (ground (arith, eq_refl k, lookup-filter_keys p k m))
    | inr other ↦ ground (arith, lookup-filter_keys p k m)
  ]

  pub filter_keys-Distinct :
      (p : String → Bool) (m : Dict V) → Distinct m → Distinct (filter_keys p m)
  unfolding filter_keys
  filter_keys-Distinct p [] h = tt
  filter_keys-Distinct p ((i, w) ∷ m) h =
      ground (arith, filter_keys-Distinct p m, lookup-filter_keys p i m)
