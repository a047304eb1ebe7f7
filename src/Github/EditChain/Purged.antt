-- ===== src/Github/EditChain/Purged.antt =====
-- What the deletions of `EditChainJSON` (internal/github/pr.go) leave of a file.
use mathlib.Core.Option
use mathlib.Core.Option.{some-injective}
use chain_registry_sentinel.Base.{
  ℕ, ◌≡◌, refl, ap, ◌∙◌, inl, inr, String, true, false, none, some, List, [], ◌∷◌, arith, str_eq,
  eq_iff, eq_refl, Bool-cases, if◌then◌else◌, subst,
}
use chain_registry_sentinel.Base.Map.{Dict, lookup, Distinct, is_some}
use chain_registry_sentinel.Github.Outcome.{Outcome, ok}
use chain_registry_sentinel.Github.Documents.{Documents, IsLawful, is_category}
use chain_registry_sentinel.Github.EditChain.{dead_indices, sort_desc, delete_indices, delete_all}
use chain_registry_sentinel.Github.EditChain.Deletion.{kept, Leaves, delete_indices-Leaves}

module _ (D : Documents) (L : IsLawful D) (pairs : Dict (Unit {0})) where
  -- The category is a known one that the file has, and the indices are those of its dead entries.
  pub record IsPlanned (d : D.Doc) (category : String) (is : List ℕ) : Type 0 where
    pub plain : is_category category ≡ true
    pub addresses : List String
    pub listed : lookup category (D.apis d) ≡ some addresses
    pub indices : is ≡ dead_indices pairs category 0 addresses

  -- The result is a file in which the doomed categories list what is kept, and the others are as
  -- before.
  pub record Purges (doomed : Dict (List ℕ)) (d : D.Doc) (o : Outcome D.Doc) : Type 0 where
    pub file : D.Doc
    pub returned : o ≡ ok file
    pub listed :
        (c : String)
        → lookup c (D.apis file) ≡ (
            if is_some (lookup c doomed)
            then Option.map (kept pairs c) (lookup c (D.apis d))
            else lookup c (D.apis d))

  IsPlanned-Leaves :
      (d : D.Doc) (category : String) (is : List ℕ) (p : IsPlanned d category is)
      → Leaves D category
          (kept pairs category p.addresses)
          d
          (delete_indices D category (sort_desc is) d)
  IsPlanned-Leaves d category is p =
      rw p.indices
        (delete_indices-Leaves D L pairs category [] p.addresses 0 d refl p.plain p.listed)

  delete_all-cons :
      (category : String) (is : List ℕ) (doomed : Dict (List ℕ)) (d : D.Doc) {a b : D.Doc}
      → delete_indices D category (sort_desc is) d ≡ ok a
      → delete_all D doomed a ≡ ok b
      → delete_all D ((category, is) ∷ doomed) d ≡ ok b
  unfolding delete_all
  delete_all-cons category is doomed d e f = rw e f

  pub delete_all-nil : (d : D.Doc) → delete_all D [] d ≡ ok d
  unfolding delete_all
  delete_all-nil d = refl

  later-IsPlanned :
      (category : String) (is : List ℕ) (doomed : Dict (List ℕ)) (d a : D.Doc)
      → lookup category doomed ≡ none
      → ((c : String) → str_eq category c ≡ false → lookup c (D.apis a) ≡ lookup c (D.apis d))
      → ((c : String) (js : List ℕ)
          → lookup c ((category, is) ∷ doomed) ≡ some js
          → IsPlanned d c js)
      → (c : String) (js : List ℕ) → lookup c doomed ≡ some js
      → IsPlanned a c js
  later-IsPlanned category is doomed d a fresh same plan c js found =
      elim (Bool-cases (str_eq category c)) [
        | inl e ↦ cc (found, fresh, (eq_iff category c).0 e)
        | inr other ↦
            let p = plan c js (unfold lookup in rw other found) in
            record {
              plain = p.plain;
              addresses = p.addresses;
              listed = same c other ∙ p.listed;
              indices = p.indices;
            }
      ]

  pub lookup-cons :
      (category c : String) (is : List ℕ) (doomed : Dict (List ℕ))
      → lookup c ((category, is) ∷ doomed)
        ≡ (if str_eq category c then some is else lookup c doomed)
  unfolding lookup
  lookup-cons category c is doomed = refl

  listed_cons :
      (category : String) (is : List ℕ) (doomed : Dict (List ℕ)) (d a b : D.Doc)
      (addresses : List String) (c : String)
      → lookup category doomed ≡ none
      → lookup category (D.apis d) ≡ some addresses
      → lookup c (D.apis a)
        ≡ (if str_eq category c then some (kept pairs category addresses) else lookup c (D.apis d))
      → lookup c (D.apis b) ≡ (
          if is_some (lookup c doomed)
          then Option.map (kept pairs c) (lookup c (D.apis a))
          else lookup c (D.apis a))
      → lookup c (D.apis b) ≡ (
          if is_some (lookup c ((category, is) ∷ doomed))
          then Option.map (kept pairs c) (lookup c (D.apis d))
          else lookup c (D.apis d))
  listed_cons category is doomed d a b addresses c fresh found first rest =
      let stands = lookup-cons category c is doomed in
      elim (Bool-cases (str_eq category c)) [
        | inl same ↦
            let e = (eq_iff category c).0 same in
            let last = subst (λ k. lookup k doomed ≡ none) e fresh in
            let here = subst (λ k. lookup k (D.apis d) ≡ some addresses) e found in
            ground (arith, rest, first, stands, last, here, ap (λ k. kept pairs k addresses) e)
        | inr other ↦ rw (stands, other) (rest ∙ rw (first, other) refl)
      ]

  pub delete_all-Purges :
      (doomed : Dict (List ℕ)) (d : D.Doc)
      → Distinct doomed
      → ((c : String) (is : List ℕ) → lookup c doomed ≡ some is → IsPlanned d c is)
      → Purges doomed d (delete_all D doomed d)
  delete_all-Purges [] d distinct plan = record {
    file = d;
    returned = delete_all-nil d;
    listed = λ c. unfold lookup in refl;
  }
  delete_all-Purges ((category, is) ∷ doomed) d (fresh, distinct) plan =
      let p = plan category is (unfold lookup in rw eq_refl refl) in
      let l = IsPlanned-Leaves d category is p in
      let rest = delete_all-Purges doomed l.file distinct (
        later-IsPlanned category is doomed d l.file fresh (λ c other. l.listed c ∙ rw other refl)
          plan) in
      record {
        file = rest.file;
        returned = delete_all-cons category is doomed d l.returned rest.returned;
        listed = λ c.
            listed_cons category is doomed d l.file rest.file p.addresses c fresh p.listed
              (l.listed c) (rest.listed c);
      }
