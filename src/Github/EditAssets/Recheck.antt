-- ===== src/Github/EditAssets/Recheck.antt =====
-- `EditAssetListJSON` (internal/github/pr.go) and the check that its fixes come from.
use mathlib.Core.Option.{some-injective}
use chain_registry_sentinel.Base.{
  ◌≡◌, refl, sym, ap, ◌∙◌, inl, inr, String, Bool, true, false, ◌&&◌, ◌||◌, Option, some, List, [],
  ◌∷◌, arith, any, map, not, All, str_eq, eq_iff, eq_refl, Bool-cases, Option-cases, if◌then◌else◌,
  subst,
}
use chain_registry_sentinel.Base.Map.{or_zero, is_some}
use chain_registry_sentinel.Base.Text.{has_prefix}
use chain_registry_sentinel.Checks.IbcHash.{
  IbcAsset, AssetJson, AssetList, last_trace_path, ibc_assets, expected_base, mismatches,
  check_denom_hashes,
}
use chain_registry_sentinel.Github.Outcome.{ok}
use chain_registry_sentinel.Github.Documents.{Documents, IsLawful, AssetEntry}
use chain_registry_sentinel.Github.Body.{HashFix}
use chain_registry_sentinel.Github.EditAssets.{
  FixKey, FixMap, same_key, find_fix, fix_map, key_of, edit_assets, fix_of, fixes_of,
}
use chain_registry_sentinel.Github.EditAssets.Renamed.{corrected_by, edit_assets-map}

abbrev fix_key : HashFix → FixKey
fix_key f = record { base = f.base; path = f.path }

second_true : (b : Bool) {c : Bool} → (b && c) ≡ true → c ≡ true
second_true true h = h
second_true false h = cc h

same_key_refl : (k : FixKey) → same_key k k ≡ true
same_key_refl k = rw (eq_refl k.base, eq_refl k.path) refl

find-fix_map :
    (k : FixKey) (fixes : List HashFix) (m : FixMap)
    → is_some (find_fix k (fix_map fixes m))
      ≡ (any (λ f. same_key (fix_key f) k) fixes || is_some (find_fix k m))
unfolding fix_map find_fix
find-fix_map k [] m = refl
find-fix_map k (f ∷ fs) m = ground (arith, find-fix_map k fs ((fix_key f, f.expected) ∷ m))

module _ (sha256_hex : String → String) where
  -- What is expected at a path is the hash of the path.
  abbrev pub Expects : FixMap → Type 0
  Expects m =
      (k : FixKey) (expected : String)
      → find_fix k m ≡ some expected
      → expected ≡ expected_base sha256_hex k.path

  cons-Expects :
      (j : FixKey) (m : FixMap) → Expects m → Expects ((j, expected_base sha256_hex j.path) ∷ m)
  unfolding find_fix
  cons-Expects j m h k expected found = elim (Bool-cases (same_key j k)) [
    | inl same ↦
        sym (
          some-injective _ _ (
            subst
              (λ b.
                (if b then some (expected_base sha256_hex j.path) else find_fix k m)
                ≡ some expected)
              same found))
        ∙ ap (expected_base sha256_hex)
            ((eq_iff j.path k.path).0 (second_true (str_eq j.base k.base) same))
    | inr other ↦ h k expected (
        subst
          (λ b.
            (if b then some (expected_base sha256_hex j.path) else find_fix k m) ≡ some expected)
          other found)
  ]

  fix_map-Expects :
      (name : String) (as' : List IbcAsset) (m : FixMap)
      → Expects m
      → Expects (fix_map (map fix_of (mismatches sha256_hex name as')) m)
  unfolding fix_map
  fix_map-Expects name [] m h = h
  fix_map-Expects name (a ∷ as') m h =
      elim (Bool-cases (str_eq a.base (expected_base sha256_hex a.path))) [
        | inl right ↦ rw right (fix_map-Expects name as' m h)
        | inr wrong ↦ rw wrong (
            fix_map-Expects name as' _ (cons-Expects (record { base = a.base; path = a.path }) m h))
      ]

  -- Each wrong asset has its key in the map.
  abbrev pub Covers : FixMap → List IbcAsset → Type 0
  Covers m as' =
      All
        (λ (a : IbcAsset).
          str_eq a.base (expected_base sha256_hex a.path) ≡ false
          → is_some (find_fix (record { base = a.base; path = a.path }) m) ≡ true)
        as'

  mismatches-key :
      (name : String) (k : FixKey) (as' : List IbcAsset)
      → any (λ f. same_key (fix_key f) k) (map fix_of (mismatches sha256_hex name as'))
        ≡ any
            (λ a.
              not (str_eq a.base (expected_base sha256_hex a.path))
              && same_key (record { base = a.base; path = a.path }) k)
            as'
  mismatches-key name k [] = refl
  mismatches-key name k (a ∷ as') = ground (arith, mismatches-key name k as')

  Covers-any :
      (m : FixMap) (as' : List IbcAsset)
      → ((k : FixKey)
          → any
              (λ a.
                not (str_eq a.base (expected_base sha256_hex a.path))
                && same_key (record { base = a.base; path = a.path }) k)
              as'
            ≡ true
          → is_some (find_fix k m) ≡ true)
      → Covers m as'
  Covers-any m [] h = tt
  Covers-any m (a ∷ as') h =
      let k : FixKey = record { base = a.base; path = a.path } in
      (
        λ wrong. h k (ground (arith, wrong, same_key_refl k)),
        Covers-any m as' (λ j later. h j (ground (arith, later))),
      )

  cons-Covers :
      (m : FixMap) (a : AssetJson) (as' : List AssetJson)
      → Covers m (ibc_assets (a ∷ as'))
      → Covers m (ibc_assets as')
        × (has_prefix a.base "ibc/" ≡ true
            → str_eq (last_trace_path a.trace_paths) "" ≡ false
            → str_eq a.base (expected_base sha256_hex (last_trace_path a.trace_paths)) ≡ false
            → is_some (find_fix (record { base = a.base; path = last_trace_path a.trace_paths }) m)
              ≡ true)
  unfolding ibc_assets
  cons-Covers m a as' c = elim (Bool-cases (has_prefix a.base "ibc/")) [
    | inl ibc ↦ elim (Bool-cases (str_eq (last_trace_path a.trace_paths) "")) [
      | inl unset ↦ (rw (ibc, unset) at c, λ p q. cc (q, unset))
      | inr is_set ↦ let (here, later) = rw (ibc, is_set) at c in (later, λ _ _. here)
    ]
    | inr other ↦ (rw other at c, λ p. cc (p, other))
  ]

  cons-right :
      (name : String) (a : AssetJson) (as' : List AssetJson)
      → (has_prefix a.base "ibc/" ≡ true
          → str_eq (last_trace_path a.trace_paths) "" ≡ false
          → str_eq a.base (expected_base sha256_hex (last_trace_path a.trace_paths)) ≡ true)
      → mismatches sha256_hex name (ibc_assets as') ≡ []
      → mismatches sha256_hex name (ibc_assets (a ∷ as')) ≡ []
  unfolding ibc_assets
  cons-right name a as' right rest = ground (arith, right, rest)

  -- A map that covers and expects leaves nothing to report.
  corrected-mismatches :
      (name : String) (m : FixMap) (as' : List AssetEntry)
      → Expects m
      → Covers m (ibc_assets (map (λ a. a.asset) as'))
      → mismatches sha256_hex name (ibc_assets (map (λ a. a.asset) (map (corrected_by m) as'))) ≡ []
  unfolding key_of
  corrected-mismatches name m [] h c = unfold ibc_assets in refl
  corrected-mismatches name m (a ∷ as') h c =
      let (later, here) = cons-Covers m a.asset (map (λ b. b.asset) as') c in
      cons-right name (corrected_by m a).asset (map (λ b. b.asset) (map (corrected_by m) as'))
        (elim (Option-cases (find_fix (key_of a) m)) [
          | inl nothing ↦ rw nothing (λ p q. ground (arith, here p q, nothing))
          | inr (expected, found) ↦ rw found (λ p q. (eq_iff _ _).1 (h (key_of a) expected found))
        ])
        (corrected-mismatches name m as' h later)

  abbrev pub asset_list : String → List AssetEntry → AssetList
  asset_list name entries = record {
    chain_name = name;
    assets = ibc_assets (map (λ (a : AssetEntry). a.asset) entries);
  }

  found_fixes :
      (name : String) (as' : List IbcAsset)
      → Covers (fix_map (map fix_of (mismatches sha256_hex name as')) []) as'
  found_fixes name as' =
      let fixes = map fix_of (mismatches sha256_hex name as') in
      Covers-any (fix_map fixes []) as'
        (λ k h. find-fix_map k fixes [] ∙ rw (mismatches-key name k as', h) refl)

  no_fixes : Expects []
  unfolding find_fix
  no_fixes k expected found = cc found

  -- Where the fixes are those that the check of the file's own denom hashes asks for, the edit does
  -- not fail, and the check of the file that then stands (the old one, where the edit returns
  -- nothing) finds no mismatch.
  pub edit_assets-check_denom_hashes :
      (D : Documents)
      → IsLawful D
      → (name : String) (d : D.Doc)
      → (edited : Option D.Doc) × (edit_assets D
            (fixes_of (check_denom_hashes sha256_hex (asset_list name (D.assets d))))
            d
          ≡ ok edited)
        × (check_denom_hashes sha256_hex (asset_list name (D.assets (or_zero d edited))) ≡ [])
  unfolding check_denom_hashes fixes_of
  edit_assets-check_denom_hashes D L name d =
      let as' = ibc_assets (map (λ a. a.asset) (D.assets d)) in
      let fixes = map fix_of (mismatches sha256_hex name as') in
      let (edited, done, listed) = edit_assets-map D L fixes d in
      (
        edited,
        done,
        rw listed (
            corrected-mismatches name (fix_map fixes []) (D.assets d)
              (fix_map-Expects name as' [] no_fixes) (found_fixes name as')),
      )
