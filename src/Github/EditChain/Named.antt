-- ===== src/Github/EditChain/Named.antt =====
-- The entries that `EditChainJSON` (internal/github/pr.go) deletes: where something is to be deleted,
-- a flagged endpoint names an entry of the file.
use mathlib.Core.Option
use mathlib.Core.Option.{some-injective}
use chain_registry_sentinel.Base.{
  ℕ, suc, ◌≡◌, refl, sym, ◌∙◌, inl, inr, String, true, Option, none, some, List, [], ◌∷◌, arith,
  any, Memᴰ, Bool-cases, ◌≤◌, Bool, ap, not, keep, length, List-cases,
}
use chain_registry_sentinel.Base.Map.{Dict, lookup}
use chain_registry_sentinel.Sentinel.Flows.Endpoint.{FlaggedEndpoint}
use chain_registry_sentinel.Github.Documents.{is_category}
use chain_registry_sentinel.Github.EditChain.{is_dead, dead_pairs, dead_indices}
use chain_registry_sentinel.Github.EditChain.Pairs.{names_entry, dead_pairs-is_dead}
use chain_registry_sentinel.Github.EditChain.Plan.{planned}

-- A flagged endpoint names an address that a category of `apis` lists.
pub record IsNamed (dead : List FlaggedEndpoint) (apis : Dict (List String)) : Type 0 where
  pub category : String
  pub addresses : List String
  pub address : String
  pub lists : lookup category apis ≡ some addresses
  pub member : Memᴰ address addresses
  pub named : any (names_entry category address) dead ≡ true

keep-le-length {ℓ} : {A : Type ℓ} (p : A → Bool) (xs : List A) → length (keep p xs) ≤ length xs
keep-le-length p [] = omega arith
keep-le-length p (x ∷ xs) = ground (arith, keep-le-length p xs)

-- A list that is kept whole has no element that fails the test.
keep-whole {ℓ} :
    {A : Type ℓ} (p : A → Bool) (xs : List A) {a : A}
    → length (keep p xs) ≡ length xs
    → Memᴰ a xs
    → p a ≡ true
keep-whole p [] e m = elim m [ ]
keep-whole p (x ∷ xs) e (Memᴰ.head {x = y} same) = elim (Bool-cases (p x)) [
  | inl passes ↦ ap p same ∙ passes
  | inr fails ↦ ground (arith, e, fails, keep-le-length p xs)
]
keep-whole p (x ∷ xs) e (Memᴰ.tail m) = keep-whole p xs (ground (arith, e, keep-le-length p xs)) m

pub kept-IsNamed :
    (dead : List FlaggedEndpoint) (apis : Dict (List String))
    → ((c : String)
        → lookup c apis
          ≡ Option.map (keep (λ address. not (any (names_entry c address) dead))) (lookup c apis))
    → ¬ IsNamed dead apis
kept-IsNamed dead apis same n =
    let p = λ (address : String). not (any (names_entry n.category address) dead) in
    let whole : some n.addresses ≡ some (keep p n.addresses) =
      sym n.lists ∙ same n.category ∙ ap (Option.map (keep p)) n.lists in
    let stays = keep-whole p n.addresses (ap length (sym (some-injective _ _ whole))) n.member in
    ground (arith, stays, n.named)

dead_indices-is_dead :
    (pairs : Dict (Unit {0})) (category : String) (i : ℕ) (eps : List String) {k : ℕ} {ks : List ℕ}
    → dead_indices pairs category i eps ≡ k ∷ ks
    → (a : String) × Memᴰ a eps × (is_dead pairs category a ≡ true)
unfolding dead_indices
dead_indices-is_dead pairs category i [] h = cc h
dead_indices-is_dead pairs category i (ep ∷ eps) h = elim (Bool-cases (is_dead pairs category ep)) [
  | inl dead ↦ (ep, Memᴰ.head refl, dead)
  | inr alive ↦
      let (a, m, found) = dead_indices-is_dead pairs category (suc i) eps (rw alive at h) in
      (a, Memᴰ.tail m, found)
]

planned-is_dead :
    (pairs : Dict (Unit {0})) (c : String) (eps : Option (List String)) (is : List ℕ)
    → planned pairs c eps none ≡ some is
    → (addresses : List String) × (a : String) × (eps ≡ some addresses)
      × Memᴰ a addresses
      × (is_dead pairs c a ≡ true)
planned-is_dead pairs c none is h = cc
planned-is_dead pairs c (some eps) is h = elim (List-cases (dead_indices pairs c 0 eps)) [
  | inl nothing ↦ cc (simp nothing at h)
  | inr (i, js, found) ↦
      let (a, m, dead) = dead_indices-is_dead pairs c 0 eps found in (eps, a, refl, m, dead)
]

none_dead : (c address : String) → is_dead [] c address ≡ true → ⊥
unfolding lookup
none_dead c address h = cc h

pub planned-IsNamed :
    (dead : List FlaggedEndpoint) (apis : Dict (List String)) (c : String) (is : List ℕ)
    → is_category c ≡ true
    → planned (dead_pairs dead []) c (lookup c apis) none ≡ some is
    → IsNamed dead apis
planned-IsNamed dead apis c is known plan =
    let (addresses, a, listed, m, found) =
      planned-is_dead (dead_pairs dead []) c (lookup c apis) is plan in
    record {
      category = c;
      addresses = addresses;
      address = a;
      lists = listed;
      member = m;
      named = ground (arith, dead_pairs-is_dead c a dead [] known, none_dead c a);
    }
