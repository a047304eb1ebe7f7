-- ===== src/Github/EditAssets.antt =====
-- internal/github/pr.go: `EditAssetListJSON`, which corrects hashes in assetlist.json, and
-- `EditChainStatus`, which marks a chain as killed in chain.json.
pub mod Renamed
pub mod Fixed
pub mod Recheck
pub mod Status
use chain_registry_sentinel.Base.{
  ℕ, suc, String, Bool, true, false, ◌&&◌, Option, none, some, List, [], ◌∷◌, map, str_eq,
  if◌then◌else◌,
}
use chain_registry_sentinel.Checks.IbcHash.{AssetJson, HashMismatch, last_trace_path}
use chain_registry_sentinel.Github.Outcome.{Outcome, ok, err, wrap_outcome, ◌>>=◌}
use chain_registry_sentinel.Github.Documents.{Documents, AssetEntry}
use chain_registry_sentinel.Github.Body.{HashFix}

-- `fixKey`, and a map with such keys: the entry that was added last stands first.
pub record FixKey : Type 0 where
  pub base : String
  pub path : String

abbrev pub FixMap : Type 0
FixMap = List (FixKey × String)

abbrev pub same_key : FixKey → FixKey → Bool
same_key k j = str_eq k.base j.base && str_eq k.path j.path

unfoldable pub find_fix : FixKey → FixMap → Option String
find_fix key [] = none
find_fix key ((k, expected) ∷ m) = if same_key k key then some expected else find_fix key m

unfoldable pub fix_map : List HashFix → FixMap → FixMap
fix_map [] m = m
fix_map (f ∷ fs) m = fix_map fs ((record { base = f.base; path = f.path }, f.expected) ∷ m)

pub record IndexFix : Type 0 where
  pub idx : ℕ
  pub expected : String
  pub units : List ℕ

-- The indices, from `u` on, of the units that carry the hash.
unfoldable pub carrying : String → ℕ → List String → List ℕ
carrying base u [] = []
carrying base u (denom ∷ units) =
    let rest = carrying base (suc u) units in if str_eq denom base then u ∷ rest else rest

abbrev pub key_of : AssetEntry → FixKey
unfolding last_trace_path
key_of a = record { base = a.asset.base; path = last_trace_path a.asset.trace_paths }

abbrev pub cons_fix : Option String → ℕ → AssetEntry → List IndexFix → List IndexFix
unfolding carrying
cons_fix none i a rest = rest
cons_fix (some expected) i a rest =
    record { idx = i; expected = expected; units = carrying a.asset.base 0 a.units } ∷ rest

-- The loop over the assets, from index `i` on.
unfoldable pub to_fix : FixMap → ℕ → List AssetEntry → List IndexFix
unfolding find_fix key_of cons_fix
to_fix m i [] = []
to_fix m i (a ∷ as') = cons_fix (find_fix (key_of a) m) i a (to_fix m (suc i) as')

module _ (D : Documents) where
  unfoldable pub set_units : ℕ → String → List ℕ → D.Doc → Outcome D.Doc
  set_units i expected [] d = ok d
  set_units i expected (u ∷ us) d = D.set_unit d i u expected >>= set_units i expected us

  unfoldable pub set_all : List IndexFix → D.Doc → Outcome D.Doc
  unfolding set_units
  set_all [] d = ok d
  set_all (f ∷ fs) d =
      (D.set_base d f.idx f.expected >>= set_units f.idx f.expected f.units) >>= set_all fs

  abbrev pub some_doc : D.Doc → Outcome (Option D.Doc)
  some_doc d = ok (some d)

  -- Nothing to fix is `nil, nil`.
  abbrev pub set_fixes : List IndexFix → D.Doc → Outcome (Option D.Doc)
  unfolding set_all
  set_fixes [] d = ok none
  set_fixes (f ∷ fs) d = set_all (f ∷ fs) d >>= some_doc

  -- `EditAssetListJSON` on the file that was read.
  unfoldable pub edit_assets : List HashFix → D.Doc → Outcome (Option D.Doc)
  unfolding fix_map to_fix set_fixes
  edit_assets fixes d = set_fixes (to_fix (fix_map fixes []) 0 (D.assets d)) d

  unfoldable pub edit_asset_list_json : String → List HashFix → Outcome (Option D.Doc)
  unfolding edit_assets
  edit_asset_list_json chain_name fixes =
      wrap_outcome "EditAssetListJSON: " (D.read_assets chain_name >>= edit_assets fixes)

  -- `EditChainStatus`.
  unfoldable pub edit_status : D.Doc → Outcome (Option D.Doc)
  edit_status d =
      if str_eq (D.status d) "live" then D.set_status d "killed" >>= some_doc else ok none

  unfoldable pub edit_chain_status : String → Outcome (Option D.Doc)
  unfolding edit_status
  edit_chain_status chain_name =
      wrap_outcome "EditChainStatus: " (D.read_chain chain_name >>= edit_status)

-- The conversion in `tryOpenHashPR`.
abbrev pub fix_of : HashMismatch → HashFix
fix_of m = record { asset_name = m.asset_name; base = m.base; expected = m.expected; path = m.path }

unfoldable pub fixes_of : List HashMismatch → List HashFix
fixes_of mm = map fix_of mm
