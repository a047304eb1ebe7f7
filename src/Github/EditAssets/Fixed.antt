-- ===== src/Github/EditAssets/Fixed.antt =====
-- The file that `EditAssetListJSON` (internal/github/pr.go) returns, against the list of its fixes.
use mathlib.Core.Path.{ap₂}
use chain_registry_sentinel.Base.{
  ◌≡◌, refl, ap, ◌∙◌, eq_iff, String, Option, none, some, List, [], ◌∷◌, arith, map, keep, not,
  str_eq, ◌&&◌, if◌then◌else◌,
}
use chain_registry_sentinel.Base.Map.{or_zero}
use chain_registry_sentinel.Checks.IbcHash.{last_trace_path}
use chain_registry_sentinel.Github.Outcome.{ok}
use chain_registry_sentinel.Github.Documents.{Documents, IsLawful, AssetEntry}
use chain_registry_sentinel.Github.Body.{HashFix}
use chain_registry_sentinel.Github.EditAssets.{
  FixKey, FixMap, find_fix, fix_map, key_of, edit_assets,
}
use chain_registry_sentinel.Github.EditAssets.Renamed.{corrected, corrected_by, edit_assets-map}

-- The last element, or the given one.
abbrev pub last_of : String → List String → String
last_of x [] = x
last_of x (y ∷ ys) = last_of y ys

-- The last trace path that is not empty, or "".
abbrev pub path_of : AssetEntry → String
path_of a = last_of "" (keep (λ p. not (str_eq p "")) a.asset.trace_paths)

abbrev or_other : Option String → Option String → Option String
or_other none o = o
or_other (some x) o = some x

-- What the last fix of that base and path expects.
abbrev pub expected_of : List HashFix → String → String → Option String
expected_of [] base path = none
expected_of (f ∷ fs) base path =
    or_other (expected_of fs base path)
      (if str_eq f.base base && str_eq f.path path then some f.expected else none)

last_of-keep :
    (x : String) (ps : List String)
    → last_of x (keep (λ p. not (str_eq p "")) ps)
      ≡ (if str_eq (last_trace_path ps) "" then x else last_trace_path ps)
unfolding last_trace_path
last_of-keep x [] = refl
last_of-keep x (p ∷ ps) = ground (arith, last_of-keep x ps, last_of-keep p ps)

path_of-last_trace_path : (a : AssetEntry) → last_trace_path a.asset.trace_paths ≡ path_of a
path_of-last_trace_path a =
    ground
      (arith, last_of-keep "" a.asset.trace_paths, eq_iff (last_trace_path a.asset.trace_paths) "")

find-expected_of :
    (k : FixKey) (fixes : List HashFix) (m : FixMap)
    → find_fix k (fix_map fixes m) ≡ or_other (expected_of fixes k.base k.path) (find_fix k m)
unfolding fix_map find_fix
find-expected_of k [] m = refl
find-expected_of k (f ∷ fs) m =
    let here : FixKey = record { base = f.base; path = f.path } in
    ground (arith, find-expected_of k fs ((here, f.expected) ∷ m))

or_other-none : (o : Option String) → or_other o none ≡ o
or_other-none none = refl
or_other-none (some x) = refl

corrected_by-expected_of :
    (fixes : List HashFix) (a : AssetEntry)
    → corrected_by (fix_map fixes []) a ≡ corrected (expected_of fixes a.asset.base (path_of a)) a
unfolding find_fix key_of last_trace_path
corrected_by-expected_of fixes a =
    ap (λ o. corrected o a)
      (find-expected_of (key_of a) fixes []
        ∙ or_other-none _
        ∙ ap (λ p. expected_of fixes a.asset.base p) (path_of-last_trace_path a))

map-expected_of :
    (fixes : List HashFix) (as' : List AssetEntry)
    → map (corrected_by (fix_map fixes [])) as'
      ≡ map (λ a. corrected (expected_of fixes a.asset.base (path_of a)) a) as'
map-expected_of fixes [] = refl
map-expected_of fixes (a ∷ as') =
    ap₂ ◌∷◌ (corrected_by-expected_of fixes a) (map-expected_of fixes as')

module _ (D : Documents) (L : IsLawful D) where
  -- The edit does not fail. In the file that then stands (the old one, where the edit returns
  -- nothing), the asset list is the old one with, in each asset whose base and last trace path that is
  -- not empty (or "") are those of a fix, the base and every unit equal to it replaced by what the last
  -- such fix expects. Every other asset is as before.
  pub edit_assets-expected_of :
      (fixes : List HashFix) (d : D.Doc)
      → (edited : Option D.Doc) × (edit_assets D fixes d ≡ ok edited)
        × (D.assets (or_zero d edited)
            ≡ map (λ a. corrected (expected_of fixes a.asset.base (path_of a)) a) (D.assets d))
  edit_assets-expected_of fixes d =
      let (edited, done, listed) = edit_assets-map D L fixes d in
      (edited, done, listed ∙ map-expected_of fixes (D.assets d))
