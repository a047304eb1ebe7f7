-- ===== src/Github/EditChain/Edited.antt =====
-- The file that `EditChainJSON` (internal/github/pr.go) returns.
use mathlib.Core.Option
use mathlib.Core.Option.{some-injective}
use chain_registry_sentinel.Base.{
  ℕ, suc, ◌≡◌, refl, sym, ap, ◌∙◌, inl, inr, String, true, false, not, Option, none, some, List, [],
  ◌∷◌, arith, any, ◌⊎◌, keep, eq_refl, List-cases, if◌then◌else◌, subst,
}
use chain_registry_sentinel.Base.Map.{Dict, lookup, Distinct, is_some}
use chain_registry_sentinel.Sentinel.Flows.Endpoint.{FlaggedEndpoint}
use chain_registry_sentinel.Github.Outcome.{ok}
use chain_registry_sentinel.Github.Documents.{Documents, IsLawful, is_category}
use chain_registry_sentinel.Github.EditChain.{
  is_dead, dead_pairs, dead_indices, to_delete, delete_all, delete_doomed, edit_chain,
}
use chain_registry_sentinel.Github.EditChain.Deletion.{kept}
use chain_registry_sentinel.Github.EditChain.Pairs.{names_entry, dead_pairs-is_dead}
use chain_registry_sentinel.Github.EditChain.Named.{IsNamed, planned-IsNamed, kept-IsNamed}
use chain_registry_sentinel.Github.EditChain.Plan.{planned, to_delete-lookup, to_delete-Distinct}
use chain_registry_sentinel.Github.EditChain.Purged.{
  IsPlanned, Purges, delete_all-nil, lookup-cons, delete_all-Purges,
}

-- Nothing is deleted where no index is planned.
no_index-kept :
    (pairs : Dict (Unit {0})) (category : String) (i : ℕ) (eps : List String)
    → dead_indices pairs category i eps ≡ []
    → kept pairs category eps ≡ eps
unfolding dead_indices
no_index-kept pairs category i [] h = refl
no_index-kept pairs category i (ep ∷ eps) h =
    ground (arith, no_index-kept pairs category (suc i) eps)

-- What is read of a category behind the edit, whether or not it is in the plan.
kept-planned :
    (pairs : Dict (Unit {0})) (c : String) (eps : Option (List String)) (doomed : Option (List ℕ))
    → doomed ≡ planned pairs c eps none
    → (if is_some doomed then Option.map (kept pairs c) eps else eps)
      ≡ Option.map (kept pairs c) eps
kept-planned pairs c none doomed h = ground (arith, h)
kept-planned pairs c (some eps) doomed h = elim (List-cases (dead_indices pairs c 0 eps)) [
  | inl nothing ↦ ground (arith, h, nothing, no_index-kept pairs c 0 eps nothing)
  | inr (i, is, found) ↦ ground (arith, h, found)
]

planned-indices :
    (pairs : Dict (Unit {0})) (c : String) (eps : Option (List String)) (is : List ℕ)
    → planned pairs c eps none ≡ some is
    → (addresses : List String) × (eps ≡ some addresses) × (is ≡ dead_indices pairs c 0 addresses)
planned-indices pairs c none is h = cc
planned-indices pairs c (some eps) is h = elim (List-cases (dead_indices pairs c 0 eps)) [
  | inl nothing ↦ cc (simp nothing at h)
  | inr (i, js, found) ↦ (eps, refl, some-injective _ _ (sym h ∙ rw found refl) ∙ sym found)
]

none_dead : (c address : String) → is_dead [] c address ≡ false
unfolding lookup
none_dead c address = refl

module _ (D : Documents) (L : IsLawful D) where
  -- What the edit makes of a file: a new one, where a flagged endpoint names an entry, or nothing,
  -- where none does, and the old one stands. Every category then has its entries less the ones that are named, in their
  -- order.
  pub record IsEdited (dead : List FlaggedEndpoint) (d : D.Doc) (edited : Option D.Doc)
      : Type 0 where
    pub file : D.Doc
    pub case :
        (edited ≡ some file) × IsNamed dead (D.apis d)
        ⊎ (edited ≡ none) × (file ≡ d) × ¬ IsNamed dead (D.apis d)
    pub purged :
        (c : String)
        → lookup c (D.apis file)
          ≡ Option.map
              (keep (λ address. not (any (names_entry c address) dead)))
              (lookup c (D.apis d))

  edit_chain-nil :
      (dead : List FlaggedEndpoint) (d : D.Doc)
      → to_delete (dead_pairs dead []) (D.apis d) [] ≡ []
      → edit_chain D dead d ≡ ok none
  unfolding edit_chain
  edit_chain-nil dead d e = rw e refl

  edit_chain-some :
      (dead : List FlaggedEndpoint) (d : D.Doc) (doomed : Dict (List ℕ)) {file : D.Doc} (c : String)
      (is : List ℕ)
      → to_delete (dead_pairs dead []) (D.apis d) [] ≡ (c, is) ∷ doomed
      → delete_all D (to_delete (dead_pairs dead []) (D.apis d) []) d ≡ ok file
      → edit_chain D dead d ≡ ok (some file)
  unfolding edit_chain delete_doomed
  edit_chain-some dead d doomed {file} c is e f =
      rw e (rw (subst (λ t. delete_all D t d ≡ ok file) e f) refl)

  returned_one : {a b : D.Doc} → ok a ≡ ok b → a ≡ b
  returned_one e = cc e

  unchanged :
      (pairs : Dict (Unit {0})) (doomed : Dict (List ℕ)) (d : D.Doc)
      (p : Purges D L pairs doomed d (delete_all D doomed d))
      → doomed ≡ []
      → p.file ≡ d
  unchanged pairs doomed d p nothing =
      returned_one
        (sym p.returned ∙ ap (λ t. delete_all D t d) nothing ∙ delete_all-nil D L pairs d)

  here-IsPlanned :
      (dead : List FlaggedEndpoint) (d : D.Doc) (c : String) (is : List ℕ)
      → Distinct (D.apis d)
      → ((c : String) → is_some (lookup c (D.apis d)) ≡ true → is_category c ≡ true)
      → lookup c (to_delete (dead_pairs dead []) (D.apis d) []) ≡ some is
      → IsPlanned D L (dead_pairs dead []) d c is
  unfolding lookup
  here-IsPlanned dead d c is distinct known found =
      let pairs = dead_pairs dead [] in
      let (addresses, listed, indices) =
        planned-indices pairs c (lookup c (D.apis d)) is
          (sym (to_delete-lookup pairs c (D.apis d) [] distinct) ∙ found) in
      record {
        plain = known c (rw listed refl);
        addresses = addresses;
        listed = listed;
        indices = indices;
      }

  here-IsNamed :
      (dead : List FlaggedEndpoint) (d : D.Doc) (c : String) (is : List ℕ) (later : Dict (List ℕ))
      → Distinct (D.apis d)
      → ((c : String) → is_some (lookup c (D.apis d)) ≡ true → is_category c ≡ true)
      → to_delete (dead_pairs dead []) (D.apis d) [] ≡ (c, is) ∷ later
      → IsNamed dead (D.apis d)
  unfolding lookup
  here-IsNamed dead d c is later distinct known e =
      let pairs = dead_pairs dead [] in
      let found : lookup c (to_delete pairs (D.apis d) []) ≡ some is =
        rw (e, lookup-cons D L pairs c c is later, eq_refl c) refl in
      planned-IsNamed dead (D.apis d) c is (here-IsPlanned dead d c is distinct known found).plain
        (sym (to_delete-lookup pairs c (D.apis d) [] distinct) ∙ found)

  unchanged-IsNamed :
      (dead : List FlaggedEndpoint) (d file : D.Doc)
      → file ≡ d
      → ((c : String)
          → lookup c (D.apis file)
            ≡ Option.map
                (keep (λ address. not (any (names_entry c address) dead)))
                (lookup c (D.apis d)))
      → ¬ IsNamed dead (D.apis d)
  unchanged-IsNamed dead d file same purged =
      kept-IsNamed dead (D.apis d) (λ c. ap (λ t. lookup c (D.apis t)) (sym same) ∙ purged c)

  keep-names :
      (dead : List FlaggedEndpoint) (c : String) (eps : List String)
      → is_category c ≡ true
      → kept (dead_pairs dead []) c eps
        ≡ keep (λ address. not (any (names_entry c address) dead)) eps
  keep-names dead c [] h = refl
  keep-names dead c (ep ∷ eps) h =
      ground (arith, dead_pairs-is_dead c ep dead [] h, keep-names dead c eps h, none_dead c ep)

  map-names :
      (dead : List FlaggedEndpoint) (c : String) (o : Option (List String))
      → (is_some o ≡ true → is_category c ≡ true)
      → Option.map (kept (dead_pairs dead []) c) o
        ≡ Option.map (keep (λ address. not (any (names_entry c address) dead))) o
  map-names dead c none h = refl
  map-names dead c (some eps) h = ap some (keep-names dead c eps (h refl))

  -- On a file whose `apis` has each category once and only known ones, the edit does not fail. It
  -- returns a file exactly where a flagged endpoint names an entry, by its check's category and its
  -- address, and nothing otherwise. The categories of that file (of the old one, where nothing is
  -- returned) list, in their order, exactly the addresses that no flagged endpoint names so: the same
  -- address in another category stays.
  pub edit_chain-IsEdited :
      (dead : List FlaggedEndpoint) (d : D.Doc)
      → Distinct (D.apis d)
      → ((c : String) → is_some (lookup c (D.apis d)) ≡ true → is_category c ≡ true)
      → (edited : Option D.Doc) × (edit_chain D dead d ≡ ok edited) × IsEdited dead d edited
  unfolding lookup
  edit_chain-IsEdited dead d distinct known =
      let pairs = dead_pairs dead [] in
      let doomed = to_delete pairs (D.apis d) [] in
      let looked = λ (c : String). to_delete-lookup pairs c (D.apis d) [] distinct in
      let p =
        delete_all-Purges D L pairs doomed d (to_delete-Distinct pairs (D.apis d) [] tt)
          (λ c is found. here-IsPlanned dead d c is distinct known found) in
      let purged = λ (c : String).
        p.listed c
        ∙ kept-planned pairs c (lookup c (D.apis d)) (lookup c doomed) (looked c)
        ∙ map-names dead c (lookup c (D.apis d)) (known c) in
      elim (List-cases doomed) [
        | inl nothing ↦ (
          none,
          edit_chain-nil dead d nothing,
          record {
            file = p.file;
            case =
                let same = unchanged pairs doomed d p nothing in
                inr (refl, same, unchanged-IsNamed dead d p.file same purged);
            purged = purged;
          },
        )
        | inr (here, later, found) ↦ (
          some p.file,
          edit_chain-some dead d later here.0 here.1 found p.returned,
          record {
            file = p.file;
            case = inl (refl, here-IsNamed dead d here.0 here.1 later distinct known found);
            purged = purged;
          },
        )
      ]
