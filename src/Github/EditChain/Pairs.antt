-- ===== src/Github/EditChain/Pairs.antt =====
-- The set `deadPairs` of `EditChainJSON` (internal/github/pr.go), against the flagged endpoints.
use mathlib.Core.Option.{some-injective}
use text.Mathlib.TextLemmas.{append_assoc, cons-append, nil-append}
use chain_registry_sentinel.Base.{
  ◌≡◌, refl, sym, ap, ◌∙◌, inl, inr, String, Bool, true, false, subst, ◌&&◌, ◌||◌, Option, none,
  some, List, [], ◌∷◌, arith, any, str_eq, eq_iff, Bool-cases, if◌then◌else◌,
}
use chain_registry_sentinel.Base.Map.{Dict, lookup, insert, is_some, lookup-insert}
use chain_registry_sentinel.Base.Text.{cut, has_char, cut-append}
use chain_registry_sentinel.Sentinel.Flows.Endpoint.{FlaggedEndpoint}
use chain_registry_sentinel.Github.Documents.{is_category}
use chain_registry_sentinel.Github.EditChain.{
  check_category, pair_key, add_pair, dead_pairs, is_dead,
}

abbrev pub matches_pair : String → String → Option String → String → Bool
matches_pair category address none a = false
matches_pair category address (some c) a = str_eq c category && str_eq a address

-- Whether an endpoint of the list names that entry: its check stands for the category, and it has
-- the address.
abbrev pub names_entry : String → String → FlaggedEndpoint → Bool
names_entry category address ep = matches_pair category address (check_category ep.check) ep.address

cut-pair_key :
    (category address : String)
    → has_char category b'|' ≡ false
    → cut (pair_key category address) b'|' ≡ some (category, address)
cut-pair_key category address h =
    rw (append_assoc category "|" address, cons-append "|" "" address, nil-append address)
      (cut-append category address "|" h)

pair_key-str_eq :
    (c a category address : String)
    → has_char c b'|' ≡ false
    → has_char category b'|' ≡ false
    → str_eq (pair_key c a) (pair_key category address) ≡ (str_eq c category && str_eq a address)
pair_key-str_eq c a category address h k =
    elim (Bool-cases (str_eq (pair_key c a) (pair_key category address))) [
      | inl same ↦
          let e = (eq_iff _ _).0 same in
          let cuts =
            some-injective _ _ (
              sym (cut-pair_key c a h)
              ∙ ap (λ t. cut t b'|') e
              ∙ cut-pair_key category address k) in
          let first = ap (λ (p : String × String). p.0) cuts in
          let second = ap (λ (p : String × String). p.1) cuts in
          same ∙ ground (arith, eq_iff c category, eq_iff a address, first, second)
      | inr other ↦ ground (
        arith,
        other,
        eq_iff c category,
        eq_iff a address,
        eq_iff (pair_key c a) (pair_key category address),
      )
    ]

plain_if :
    (b : Bool) (x : String) {c : String} {o : Option String}
    → has_char x b'|' ≡ false
    → (o ≡ some c → has_char c b'|' ≡ false)
    → (if b then some x else o) ≡ some c
    → has_char c b'|' ≡ false
plain_if true x {c} h rest e = subst (λ k. has_char k b'|' ≡ false) (some-injective x c e) h
plain_if false x h rest e = rest e

check_category-plain :
    (check : String) {c : String} → check_category check ≡ some c → has_char c b'|' ≡ false
unfolding check_category has_char
check_category-plain check = plain_if (str_eq check "rpc_liveness") "rpc" refl (
    plain_if (str_eq check "rest_liveness") "rest" refl (
      plain_if (str_eq check "grpc_liveness") "grpc" refl (
        plain_if (str_eq check "grpc_web_liveness") "grpc-web" refl (
          plain_if (str_eq check "evm_liveness") "evm-http-jsonrpc" refl
            (plain_if (str_eq check "wss_liveness") "wss" refl (λ e. cc e))))))

plain_or :
    (c x : String) (b : Bool)
    → has_char x b'|' ≡ false
    → (b ≡ true → has_char c b'|' ≡ false)
    → (b || str_eq c x) ≡ true
    → has_char c b'|' ≡ false
plain_or c x true h rest e = rest refl
plain_or c x false h rest e = subst (λ k. has_char k b'|' ≡ false) (sym ((eq_iff c x).0 e)) h

pub is_category-plain : (c : String) → is_category c ≡ true → has_char c b'|' ≡ false
unfolding has_char
is_category-plain c = plain_or c "wss" _ refl (
    plain_or c "evm-http-jsonrpc" _ refl (
      plain_or c "grpc-web" _ refl (
        plain_or c "grpc" _ refl
          (plain_or c "rest" _ refl (plain_or c "rpc" false refl (λ e. cc e))))))

insert-is_some :
    (k j : String) (m : Dict (Unit {0}))
    → is_some (lookup j (insert k tt m)) ≡ (str_eq k j || is_some (lookup j m))
insert-is_some k j m = ground (arith, lookup-insert k j tt m)

add_pair-is_dead :
    (category address : String) (o : Option String) (a : String) (pairs : Dict (Unit {0}))
    → is_category category ≡ true
    → ((c : String) → o ≡ some c → has_char c b'|' ≡ false)
    → is_dead (add_pair o a pairs) category address
      ≡ (matches_pair category address o a || is_dead pairs category address)
add_pair-is_dead category address none a pairs h plain = refl
add_pair-is_dead category address (some c) a pairs h plain =
    rw
      (
        insert-is_some (pair_key c a) (pair_key category address) pairs,
        pair_key-str_eq c a category address (plain c refl) (is_category-plain category h),
      )
      refl

-- An entry is in the set exactly when an endpoint of the list names it.
pub dead_pairs-is_dead :
    (category address : String) (dead : List FlaggedEndpoint) (pairs : Dict (Unit {0}))
    → is_category category ≡ true
    → is_dead (dead_pairs dead pairs) category address
      ≡ (any (names_entry category address) dead || is_dead pairs category address)
unfolding dead_pairs
dead_pairs-is_dead category address [] pairs h = refl
dead_pairs-is_dead category address (ep ∷ dead) pairs h =
    let o = check_category ep.check in
    ground (
      arith,
      add_pair-is_dead category address o ep.address pairs h
          (λ c e. check_category-plain ep.check e),
      dead_pairs-is_dead category address dead (add_pair o ep.address pairs) h,
    )
