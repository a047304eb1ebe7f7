-- ===== src/Examples/Hashes.antt =====
-- The check of denom hashes, at a list with one wrong base.
use chain_registry_sentinel.Base.{◌≡◌, String, [], ◌∷◌, keep, map}
use chain_registry_sentinel.Checks.IbcHash.{AssetList, check_denom_hashes}
use chain_registry_sentinel.Checks.IbcHash.Mismatches.{
  is_wrong, mismatch_of, check_denom_hashes-is_wrong,
}

-- One digest for every path.
abbrev digest : String → String
digest path = "27"

abbrev listed : AssetList
listed = record {
  chain_name = "osmosis";
  assets =
      record { name = "atom"; base = "ibc/00"; path = "transfer/channel-0/uatom" }
      ∷ record { name = "juno"; base = "ibc/27"; path = "transfer/channel-42/ujuno" }
      ∷ [];
}

check_denom_hashes-is_wrong_example :
    check_denom_hashes digest listed
    ≡ map (mismatch_of digest "osmosis") (keep (is_wrong digest) listed.assets)
check_denom_hashes-is_wrong_example = check_denom_hashes-is_wrong digest listed
