-- ===== src/Checks/IbcHash.antt =====
-- internal/checks/ibc_hash.go and internal/registry/assetlist.go: IBC assets, their trace paths and
-- the check of their denom hashes.
pub mod Mismatches
use chain_registry_sentinel.Base.{String, List, [], ◌∷◌, str_eq, if◌then◌else◌}
use chain_registry_sentinel.Base.Text.{◌+s◌, has_prefix}

pub record IbcAsset : Type 0 where
  pub name : String
  pub base : String
  pub path : String

pub record AssetList : Type 0 where
  pub chain_name : String
  pub assets : List IbcAsset

pub record HashMismatch : Type 0 where
  pub chain_name : String
  pub asset_name : String
  pub base : String
  pub expected : String
  pub path : String

-- An asset of assetlist.json; of its traces, `chain.path` in their order.
pub record AssetJson : Type 0 where
  pub name : String
  pub base : String
  pub trace_paths : List String

-- The loop of `lastTracePath` runs from the end: the first path that is set there.
unfoldable pub last_trace_path : List String → String
last_trace_path [] = ""
last_trace_path (p ∷ ps) = let later = last_trace_path ps in if str_eq later "" then p else later

-- The loop of `LoadAssetList` over the assets of the file.
unfoldable pub ibc_assets : List AssetJson → List IbcAsset
unfolding last_trace_path
ibc_assets [] = []
ibc_assets (a ∷ as') =
    let rest = ibc_assets as' in
    let tp = last_trace_path a.trace_paths in
    if has_prefix a.base "ibc/"
    then if str_eq tp "" then rest else record { name = a.name; base = a.base; path = tp } ∷ rest
    else rest

-- `sha256_hex` stands for `strings.ToUpper(fmt.Sprintf("%x", sha256.Sum256(path)))`.
module _ (sha256_hex : String → String) where
  unfoldable pub expected_base : String → String
  expected_base path = "ibc/" +s sha256_hex path

  abbrev pub mismatches : String → List IbcAsset → List HashMismatch
  mismatches chain_name [] = []
  mismatches chain_name (a ∷ as') =
      let rest = mismatches chain_name as' in
      if str_eq a.base (expected_base a.path)
      then rest
      else record {
        chain_name = chain_name;
        asset_name = a.name;
        base = a.base;
        expected = expected_base a.path;
        path = a.path;
      }
        ∷ rest

  unfoldable pub check_denom_hashes : AssetList → List HashMismatch
  check_denom_hashes al = mismatches al.chain_name al.assets
