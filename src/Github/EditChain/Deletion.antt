-- ===== src/Github/EditChain/Deletion.antt =====
-- The deletions of `EditChainJSON` (internal/github/pr.go) in one category, highest index first.
use mathlib.Core.List.{append_assoc}
use chain_registry_sentinel.Base.{
  ℕ, suc, ◌<◌, ◌≡◌, refl, sym, ap, ◌∙◌, inl, inr, String, true, not, some, List, [], ◌∷◌, ◌++◌,
  arith, length, length-append, keep, All, str_eq, eq_iff, eq_refl, Bool-cases, if◌then◌else◌,
  subst,
}
use chain_registry_sentinel.Base.Map.{Dict, lookup}
use chain_registry_sentinel.Github.Outcome.{Outcome, ok, err, ◌>>=◌}
use chain_registry_sentinel.Github.Documents.{Documents, IsLawful, is_category, remove_at}
use chain_registry_sentinel.Github.EditChain.{
  is_dead, dead_indices, insert_desc, sort_desc, delete_indices,
}

abbrev pub kept : Dict (Unit {0}) → String → List String → List String
kept pairs category = keep (λ address. not (is_dead pairs category address))

dead_indices-above :
    (pairs : Dict (Unit {0})) (category : String) (i k : ℕ) (eps : List String)
    → i < k
    → All (λ j. i < j) (dead_indices pairs category k eps)
unfolding dead_indices
dead_indices-above pairs category i k [] h = tt
dead_indices-above pairs category i k (ep ∷ eps) h =
    ground (arith, dead_indices-above pairs category i (suc k) eps)

insert_desc-above :
    (i j : ℕ) (js : List ℕ) → i < j → All (λ k. i < k) js → All (λ k. i < k) (insert_desc j js)
unfolding insert_desc
insert_desc-above i j [] h hs = (h, tt)
insert_desc-above i j (k ∷ js) h hs = ground (arith, insert_desc-above i j js)

sort_desc-above : (i : ℕ) (js : List ℕ) → All (λ k. i < k) js → All (λ k. i < k) (sort_desc js)
unfolding sort_desc
sort_desc-above i [] hs = tt
sort_desc-above i (j ∷ js) (h, hs) =
    insert_desc-above i j (sort_desc js) h (sort_desc-above i js hs)

insert_desc-last : (i : ℕ) (js : List ℕ) → All (λ k. i < k) js → insert_desc i js ≡ js ++ i ∷ []
unfolding insert_desc
insert_desc-last i [] hs = refl
insert_desc-last i (j ∷ js) (h, hs) = ground (arith, insert_desc-last i js hs)

-- Sorted, the index of the first dead entry comes last.
sort_desc-first :
    (pairs : Dict (Unit {0})) (category : String) (i : ℕ) (ep : String) (eps : List String)
    → sort_desc (dead_indices pairs category i (ep ∷ eps)) ≡ (
        let later = sort_desc (dead_indices pairs category (suc i) eps) in
        if is_dead pairs category ep then later ++ i ∷ [] else later)
unfolding dead_indices sort_desc
sort_desc-first pairs category i ep eps =
    let later = dead_indices pairs category (suc i) eps in
    let above =
      sort_desc-above i later (dead_indices-above pairs category i (suc i) eps (omega arith)) in
    ground (arith, insert_desc-last i (sort_desc later) above)

remove_at-append :
    (pre : List String) (x : String) (xs : List String)
    → remove_at (length pre) (pre ++ x ∷ xs) ≡ pre ++ xs
remove_at-append [] x xs = refl
remove_at-append (y ∷ pre) x xs = ap (λ l. y ∷ l) (remove_at-append pre x xs)

module _ (D : Documents) where
  -- The result is a file in which the category lists these addresses, and the others are as before.
  pub record Leaves (category : String) (eps : List String) (d : D.Doc) (o : Outcome D.Doc)
      : Type 0 where
    pub file : D.Doc
    pub returned : o ≡ ok file
    pub listed :
        (c : String)
        → lookup c (D.apis file) ≡ (if str_eq category c then some eps else lookup c (D.apis d))

  delete_after :
      (category : String) (is js : List ℕ) (o : Outcome D.Doc)
      → ((d : D.Doc)
          → delete_indices D category (is ++ js) d
            ≡ (delete_indices D category is d >>= delete_indices D category js))
      → (o >>= delete_indices D category (is ++ js))
        ≡ ((o >>= delete_indices D category is) >>= delete_indices D category js)
  delete_after category is js (ok d) h = h d
  delete_after category is js (err e) h = refl

  delete_indices-append :
      (category : String) (is js : List ℕ) (d : D.Doc)
      → delete_indices D category (is ++ js) d
        ≡ (delete_indices D category is d >>= delete_indices D category js)
  unfolding delete_indices
  delete_indices-append category [] js d = refl
  delete_indices-append category (i ∷ is) js d =
      delete_after category is js (D.delete_api d category i) (delete_indices-append category is js)

  delete_one :
      (category : String) (is : List ℕ) (i : ℕ) (d : D.Doc) {a b : D.Doc}
      → delete_indices D category is d ≡ ok a
      → D.delete_api a category i ≡ ok b
      → delete_indices D category (is ++ i ∷ []) d ≡ ok b
  delete_one category is i d e f =
      rw (delete_indices-append category is (i ∷ []) d, e) (unfold delete_indices in rw f refl)

  nothing_to_delete :
      (pairs : Dict (Unit {0})) (category : String) (i : ℕ) (d : D.Doc)
      → delete_indices D category (sort_desc (dead_indices pairs category i [])) d ≡ ok d
  unfolding delete_indices sort_desc dead_indices
  nothing_to_delete pairs category i d = refl

module _ (D : Documents) (L : IsLawful D) (pairs : Dict (Unit {0})) (category : String) where
  delete_last :
      (pre : List String) (x : String) (xs : List String) (is : List ℕ) (d : D.Doc)
      → is_category category ≡ true
      → Leaves D category (pre ++ x ∷ xs) d (delete_indices D category is d)
      → Leaves D category (pre ++ xs) d (delete_indices D category (is ++ length pre ∷ []) d)
  delete_last pre x xs is d plain l =
      let here : lookup category (D.apis l.file) ≡ some (pre ++ x ∷ xs) =
        l.listed category ∙ rw eq_refl refl in
      let (d', done, changed) =
        L.delete_api-apis l.file category (length pre) (pre ++ x ∷ xs) plain here
          (omega (arith, length-append pre (x ∷ xs))) in
      record {
        file = d';
        returned = delete_one D category is (length pre) d l.returned done;
        listed = λ c. ground (arith, changed c, l.listed c, remove_at-append pre x xs);
      }

  pub delete_indices-Leaves :
      (pre eps : List String) (i : ℕ) (d : D.Doc)
      → length pre ≡ i
      → is_category category ≡ true
      → lookup category (D.apis d) ≡ some (pre ++ eps)
      → Leaves D category
          (pre ++ kept pairs category eps)
          d
          (delete_indices D category (sort_desc (dead_indices pairs category i eps)) d)
  delete_indices-Leaves pre [] i d len plain found = record {
    file = d;
    returned = nothing_to_delete D pairs category i d;
    listed = λ c. ground (arith, found, eq_iff category c);
  }
  delete_indices-Leaves pre (ep ∷ eps) i d len plain found =
      let later = sort_desc (dead_indices pairs category (suc i) eps) in
      let rest : Leaves D category (pre ++ ep ∷ kept pairs category eps) d
          (delete_indices D category later d) =
        subst (λ l. Leaves D category l d (delete_indices D category later d))
          (append_assoc pre (ep ∷ []) (kept pairs category eps))
          (delete_indices-Leaves (pre ++ ep ∷ []) eps (suc i) d
            (omega (arith, length-append pre (ep ∷ []), len)) plain
            (found ∙ ap some (sym (append_assoc pre (ep ∷ []) eps)))) in
      elim (Bool-cases (is_dead pairs category ep)) [
        | inl dead ↦
            rw (sort_desc-first pairs category i ep eps, dead)
              (subst
                (λ k.
                  Leaves D category (pre ++ kept pairs category eps) d
                    (delete_indices D category (later ++ k ∷ []) d))
                len (delete_last pre ep (kept pairs category eps) later d plain rest))
        | inr alive ↦ rw (sort_desc-first pairs category i ep eps, alive) rest
      ]
