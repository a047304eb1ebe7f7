-- ===== src/Github/EditChain/Plan.antt =====
-- The map `toDelete` of `EditChainJSON` (internal/github/pr.go), against the categories of the file.
use chain_registry_sentinel.Base.{
  ℕ, ◌≡◌, refl, inl, inr, String, Option, none, some, List, [], ◌∷◌, ◌++◌, arith, str_eq, eq_iff,
  Bool-cases, subst, ap, if◌then◌else◌,
}
use chain_registry_sentinel.Base.Map.{
  Dict, lookup, or_zero, Distinct, lookup-insert, insert-Distinct,
}
use chain_registry_sentinel.Github.EditChain.{dead_indices, note_indices, to_delete}

-- The indices of a category behind the loop, by its addresses and the indices before it.
abbrev pub add_indices : List ℕ → Option (List ℕ) → Option (List ℕ)
add_indices [] before = before
add_indices (i ∷ is) before = some (or_zero [] before ++ i ∷ is)

abbrev pub planned :
    Dict (Unit {0}) → String → Option (List String) → Option (List ℕ) → Option (List ℕ)
planned pairs category none before = before
planned pairs category (some eps) before = add_indices (dead_indices pairs category 0 eps) before

note_indices-lookup :
    (category c : String) (is : List ℕ) (doomed : Dict (List ℕ))
    → lookup c (note_indices category is doomed)
      ≡ (if str_eq category c then add_indices is (lookup c doomed) else lookup c doomed)
note_indices-lookup category c [] doomed = ground arith
note_indices-lookup category c (i ∷ is) doomed = ground (
  arith,
  eq_iff category c,
  lookup-insert category c (or_zero [] (lookup category doomed) ++ i ∷ is) doomed,
)

pub note_indices-Distinct :
    (category : String) (is : List ℕ) (doomed : Dict (List ℕ))
    → Distinct doomed
    → Distinct (note_indices category is doomed)
note_indices-Distinct category [] doomed h = h
note_indices-Distinct category (i ∷ is) doomed h = insert-Distinct category _ doomed h

pub to_delete-Distinct :
    (pairs : Dict (Unit {0})) (apis : Dict (List String)) (doomed : Dict (List ℕ))
    → Distinct doomed
    → Distinct (to_delete pairs apis doomed)
unfolding to_delete
to_delete-Distinct pairs [] doomed h = h
to_delete-Distinct pairs ((category, eps) ∷ apis) doomed h =
    to_delete-Distinct pairs apis _ (note_indices-Distinct category _ doomed h)

pub to_delete-lookup :
    (pairs : Dict (Unit {0})) (c : String) (apis : Dict (List String)) (doomed : Dict (List ℕ))
    → Distinct apis
    → lookup c (to_delete pairs apis doomed) ≡ planned pairs c (lookup c apis) (lookup c doomed)
unfolding to_delete lookup
to_delete-lookup pairs c [] doomed h = refl
to_delete-lookup pairs c ((category, eps) ∷ apis) doomed (fresh, h) =
    let is = dead_indices pairs category 0 eps in
    let rest = to_delete-lookup pairs c apis (note_indices category is doomed) h in
    let noted = note_indices-lookup category c is doomed in
    elim (Bool-cases (str_eq category c)) [
      | inl same ↦
          let e = (eq_iff category c).0 same in
          let last = subst (λ k. lookup k apis ≡ none) e fresh in
          ground (arith, rest, noted, last, ap (λ k. dead_indices pairs k 0 eps) e)
      | inr other ↦ ground (arith, rest, noted)
    ]
