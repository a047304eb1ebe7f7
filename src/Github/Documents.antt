-- ===== src/Github/Documents.antt =====
-- The registry files that internal/github/pr.go edits, through os, gjson and sjson, which are
-- arguments: what they read of a file, and the file behind one edit.
use chain_registry_sentinel.Base.{
  ℕ, zero, suc, ◌≡◌, ◌<◌, String, Bool, true, some, List, [], ◌∷◌, ◌||◌, str_eq, length, get_elem?,
  if◌then◌else◌,
}
use chain_registry_sentinel.Base.Map.{Dict, lookup}
use chain_registry_sentinel.Checks.IbcHash.{AssetJson}
use chain_registry_sentinel.Github.Outcome.{Outcome, ok}

-- An asset of assetlist.json, and the `denom` of each of its `denom_units`.
pub record AssetEntry : Type 0 where
  pub asset : AssetJson
  pub units : List String

pub record Documents : Type 1 where
  pub Doc : Type 0
  -- chain.json and assetlist.json of a chain.
  pub read_chain : String → Outcome Doc
  pub read_assets : String → Outcome Doc
  -- The categories of `apis`, and the `address` of each of their entries.
  pub apis : Doc → Dict (List String)
  -- `sjson.DeleteBytes(data, "apis.<category>.<index>")`.
  pub delete_api : Doc → String → ℕ → Outcome Doc
  pub status : Doc → String
  -- `sjson.SetBytes(data, "status", ...)`.
  pub set_status : Doc → String → Outcome Doc
  pub assets : Doc → List AssetEntry
  -- `sjson.SetBytes(data, "assets.<index>.base", ...)`.
  pub set_base : Doc → ℕ → String → Outcome Doc
  -- `sjson.SetBytes(data, "assets.<index>.denom_units.<unit>.denom", ...)`.
  pub set_unit : Doc → ℕ → ℕ → String → Outcome Doc
  -- The bytes of the file.
  pub bytes : Doc → String

module _ {ℓ} {A : Type ℓ} where
  -- A list without the entry at an index.
  abbrev pub remove_at : ℕ → List A → List A
  remove_at i [] = []
  remove_at zero (x ∷ xs) = xs
  remove_at (suc i) (x ∷ xs) = x ∷ remove_at i xs

  -- A list with the entry at an index changed.
  abbrev pub change_at : (A → A) → ℕ → List A → List A
  change_at f i [] = []
  change_at f zero (x ∷ xs) = f x ∷ xs
  change_at f (suc i) (x ∷ xs) = x ∷ change_at f i xs

-- The keys under which chain.json lists endpoints, none of which has a character that a path of
-- sjson treats in its own way.
abbrev pub is_category : String → Bool
is_category c =
    str_eq c "rpc"
    || str_eq c "rest"
    || str_eq c "grpc"
    || str_eq c "grpc-web"
    || str_eq c "evm-http-jsonrpc"
    || str_eq c "wss"

abbrev pub with_base : String → AssetEntry → AssetEntry
with_base v a = record a { asset = record a.asset { base = v } }

abbrev pub with_unit : ℕ → String → AssetEntry → AssetEntry
with_unit u v a = record a { units = change_at (λ _. v) u a.units }

-- An edit at a place that the file has succeeds and changes that place alone.
pub record IsLawful (D : Documents) : Type 0 where
  pub delete_api-apis :
      (d : D.Doc) (category : String) (i : ℕ) (eps : List String)
      → is_category category ≡ true
      → lookup category (D.apis d) ≡ some eps
      → i < length eps
      → (d' : D.Doc) × (D.delete_api d category i ≡ ok d')
        × ((c : String)
            → lookup c (D.apis d')
              ≡ (if str_eq category c then some (remove_at i eps) else lookup c (D.apis d)))
  pub set_base-assets :
      (d : D.Doc) (i : ℕ) (v : String)
      → i < length (D.assets d)
      → (d' : D.Doc) × (D.set_base d i v ≡ ok d')
        × (D.assets d' ≡ change_at (with_base v) i (D.assets d))
  pub set_unit-assets :
      (d : D.Doc) (i u : ℕ) (v : String) (a : AssetEntry)
      → get_elem? (D.assets d) i ≡ some a
      → u < length a.units
      → (d' : D.Doc) × (D.set_unit d i u v ≡ ok d')
        × (D.assets d' ≡ change_at (with_unit u v) i (D.assets d))
  pub set_status-status :
      (d : D.Doc) (v : String)
      → (d' : D.Doc) × (D.set_status d v ≡ ok d') × (D.status d' ≡ v) × (D.apis d' ≡ D.apis d)
