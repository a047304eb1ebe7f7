-- ===== src/Examples/Edits.antt =====
-- The edits of registry files, at a file in memory.
use chain_registry_sentinel.Base.{
  ◌≡◌, refl, inl, inr, String, true, Option, List, [], ◌∷◌, str_eq, eq_iff, Bool-cases, map, subst,
}
use chain_registry_sentinel.Base.Map.{lookup, or_zero, is_some, Distinct}
use chain_registry_sentinel.Checks.IbcHash.{check_denom_hashes}
use chain_registry_sentinel.Github.Outcome.{ok}
use chain_registry_sentinel.Github.Documents.{is_category}
use chain_registry_sentinel.Github.Body.{HashFix}
use chain_registry_sentinel.Github.EditChain.{edit_chain}
use chain_registry_sentinel.Github.EditChain.Edited.{IsEdited, edit_chain-IsEdited}
use chain_registry_sentinel.Github.EditAssets.{edit_assets, edit_status, fixes_of}
use chain_registry_sentinel.Github.EditAssets.Renamed.{corrected}
use chain_registry_sentinel.Github.EditAssets.Fixed.{path_of, expected_of, edit_assets-expected_of}
use chain_registry_sentinel.Github.EditAssets.Recheck.{asset_list, edit_assets-check_denom_hashes}
use chain_registry_sentinel.Github.EditAssets.Status.{edit_status-killed}
use chain_registry_sentinel.Examples.Files.{File, files, files-IsLawful, osmosis_file, dead_rpc}

-- One digest for every path.
abbrev digest : String → String
digest path = "27"

abbrev atom_fix : List HashFix
atom_fix =
    record {
      asset_name = "Atom";
      base = "ibc/WRONG";
      expected = "ibc/27";
      path = "transfer/channel-0/uatom";
    }
    ∷ []

osmosis_file-Distinct : Distinct osmosis_file.categories
unfolding lookup
osmosis_file-Distinct = (refl, (refl, tt))

osmosis_file-is_category :
    (c : String) → is_some (lookup c osmosis_file.categories) ≡ true → is_category c ≡ true
unfolding lookup
osmosis_file-is_category c h = elim (Bool-cases (str_eq "rpc" c)) [
  | inl rpc ↦ subst (λ k. is_category k ≡ true) ((eq_iff "rpc" c).0 rpc) refl
  | inr other ↦ elim (Bool-cases (str_eq "rest" c)) [
    | inl rest ↦ subst (λ k. is_category k ≡ true) ((eq_iff "rest" c).0 rest) refl
    | inr neither ↦ cc (rw (other, neither) at h)
  ]
]

edit_chain-IsEdited_example :
    (edited : Option File) × (edit_chain files dead_rpc osmosis_file ≡ ok edited)
    × IsEdited files files-IsLawful dead_rpc osmosis_file edited
edit_chain-IsEdited_example =
    edit_chain-IsEdited files files-IsLawful dead_rpc osmosis_file osmosis_file-Distinct
      osmosis_file-is_category

edit_assets-expected_of_example :
    (edited : Option File) × (edit_assets files atom_fix osmosis_file ≡ ok edited)
    × ((or_zero osmosis_file edited).entries
        ≡ map
            (λ a. corrected (expected_of atom_fix a.asset.base (path_of a)) a)
            osmosis_file.entries)
edit_assets-expected_of_example = edit_assets-expected_of files files-IsLawful atom_fix osmosis_file

edit_assets-check_denom_hashes_example :
    (edited : Option File) × (edit_assets files
        (fixes_of (check_denom_hashes digest (asset_list digest "osmosis" osmosis_file.entries)))
        osmosis_file
      ≡ ok edited)
    × (check_denom_hashes digest (asset_list digest "osmosis" (or_zero osmosis_file edited).entries)
        ≡ [])
edit_assets-check_denom_hashes_example =
    edit_assets-check_denom_hashes digest files files-IsLawful "osmosis" osmosis_file

edit_status-killed_example :
    (edited : Option File) × (edit_status files osmosis_file ≡ ok edited)
    × ((or_zero osmosis_file edited).state ≡ "killed")
    × ((or_zero osmosis_file edited).categories ≡ osmosis_file.categories)
edit_status-killed_example = edit_status-killed files files-IsLawful osmosis_file
