-- ===== src/Checks/IbcHash/Mismatches.antt =====
-- `CheckDenomHashes` (internal/checks/ibc_hash.go), against the assets of the list.
use chain_registry_sentinel.Base.{
  ◌≡◌, refl, String, Bool, List, [], ◌∷◌, arith, keep, map, not, str_eq,
}
use chain_registry_sentinel.Base.Text.{◌+s◌}
use chain_registry_sentinel.Checks.IbcHash.{
  IbcAsset, AssetList, HashMismatch, expected_base, mismatches, check_denom_hashes,
}

module _ (sha256_hex : String → String) where
  -- The base is not "ibc/" and the digest of the path.
  abbrev pub is_wrong : IbcAsset → Bool
  is_wrong a = not (str_eq a.base ("ibc/" +s sha256_hex a.path))

  -- The chain of the list, the asset's name, base and path, and the base that it should have.
  abbrev pub mismatch_of : String → IbcAsset → HashMismatch
  mismatch_of chain_name a = record {
    chain_name = chain_name;
    asset_name = a.name;
    base = a.base;
    expected = "ibc/" +s sha256_hex a.path;
    path = a.path;
  }

  mismatches-keep :
      (chain_name : String) (as' : List IbcAsset)
      → mismatches sha256_hex chain_name as' ≡ map (mismatch_of chain_name) (keep is_wrong as')
  unfolding expected_base
  mismatches-keep chain_name [] = refl
  mismatches-keep chain_name (a ∷ as') = ground (arith, mismatches-keep chain_name as')

  -- The check reports, in the order of the list, one mismatch for each asset whose base is not "ibc/"
  -- and the digest of its path, and none for any other: with the list's chain, the asset's name, base
  -- and path, and "ibc/" and the digest as the expected base.
  pub check_denom_hashes-is_wrong :
      (al : AssetList)
      → check_denom_hashes sha256_hex al ≡ map (mismatch_of al.chain_name) (keep is_wrong al.assets)
  unfolding check_denom_hashes
  check_denom_hashes-is_wrong al = mismatches-keep al.chain_name al.assets
