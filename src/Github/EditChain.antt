-- ===== src/Github/EditChain.antt =====
-- internal/github/pr.go: `EditChainJSON`, which removes dead endpoints from chain.json.
pub mod Deletion
pub mod Pairs
pub mod Plan
pub mod Named
pub mod Purged
pub mod Edited
use chain_registry_sentinel.Base.{
  ℕ, suc, ◌+◌, String, Bool, true, false, Option, none, some, List, [], ◌∷◌, ◌++◌, ltb, str_eq,
  if◌then◌else◌,
}
use chain_registry_sentinel.Base.Map.{Dict, lookup, insert, or_zero, is_some}
use chain_registry_sentinel.Base.Text.{◌+s◌}
use chain_registry_sentinel.Sentinel.Flows.Endpoint.{FlaggedEndpoint}
use chain_registry_sentinel.Github.Outcome.{Outcome, ok, err, wrap_outcome, ◌>>=◌}
use chain_registry_sentinel.Github.Documents.{Documents}

-- `checkCategory`.
unfoldable pub check_category : String → Option String
check_category check =
    if str_eq check "rpc_liveness"
    then some "rpc"
    else if str_eq check "rest_liveness"
    then some "rest"
    else if str_eq check "grpc_liveness"
    then some "grpc"
    else if str_eq check "grpc_web_liveness"
    then some "grpc-web"
    else if str_eq check "evm_liveness"
    then some "evm-http-jsonrpc"
    else if str_eq check "wss_liveness"
    then some "wss"
    else none

abbrev pub pair_key : String → String → String
pair_key category address = category +s "|" +s address

-- A check with no category adds nothing.
abbrev pub add_pair : Option String → String → Dict (Unit {0}) → Dict (Unit {0})
add_pair none address pairs = pairs
add_pair (some category) address pairs = insert (pair_key category address) tt pairs

-- The loop that fills `deadPairs`.
unfoldable pub dead_pairs : List FlaggedEndpoint → Dict (Unit {0}) → Dict (Unit {0})
unfolding check_category
dead_pairs [] pairs = pairs
dead_pairs (ep ∷ eps) pairs = dead_pairs eps (add_pair (check_category ep.check) ep.address pairs)

abbrev pub is_dead : Dict (Unit {0}) → String → String → Bool
is_dead pairs category address = is_some (lookup (pair_key category address) pairs)

-- The indices of a category's dead entries, counted from `i`.
unfoldable pub dead_indices : Dict (Unit {0}) → String → ℕ → List String → List ℕ
dead_indices pairs category i [] = []
dead_indices pairs category i (address ∷ eps) =
    let rest = dead_indices pairs category (suc i) eps in
    if is_dead pairs category address then i ∷ rest else rest

-- `toDelete[cat] = append(toDelete[cat], ...)`: a category with nothing to delete gets no key.
abbrev pub note_indices : String → List ℕ → Dict (List ℕ) → Dict (List ℕ)
note_indices category [] doomed = doomed
note_indices category (i ∷ is) doomed =
    insert category (or_zero [] (lookup category doomed) ++ i ∷ is) doomed

-- The loop over the categories.
unfoldable pub to_delete : Dict (Unit {0}) → Dict (List String) → Dict (List ℕ) → Dict (List ℕ)
unfolding dead_indices
to_delete pairs [] doomed = doomed
to_delete pairs ((category, eps) ∷ apis) doomed =
    to_delete pairs apis (note_indices category (dead_indices pairs category 0 eps) doomed)

-- `sort.Sort(sort.Reverse(sort.IntSlice(indices)))`.
unfoldable pub insert_desc : ℕ → List ℕ → List ℕ
insert_desc i [] = i ∷ []
insert_desc i (j ∷ js) = let later = j ∷ insert_desc i js in if ltb i j then later else i ∷ j ∷ js

unfoldable pub sort_desc : List ℕ → List ℕ
unfolding insert_desc
sort_desc [] = []
sort_desc (i ∷ is) = insert_desc i (sort_desc is)

module _ (D : Documents) where
  unfoldable pub delete_indices : String → List ℕ → D.Doc → Outcome D.Doc
  delete_indices category [] d = ok d
  delete_indices category (i ∷ is) d = D.delete_api d category i >>= delete_indices category is

  unfoldable pub delete_all : Dict (List ℕ) → D.Doc → Outcome D.Doc
  unfolding delete_indices sort_desc
  delete_all [] d = ok d
  delete_all ((category, is) ∷ doomed) d =
      delete_indices category (sort_desc is) d >>= delete_all doomed

  abbrev pub some_doc : D.Doc → Outcome (Option D.Doc)
  some_doc d = ok (some d)

  -- Nothing to delete is `nil, nil`.
  abbrev pub delete_doomed : Dict (List ℕ) → D.Doc → Outcome (Option D.Doc)
  unfolding delete_all
  delete_doomed [] d = ok none
  delete_doomed ((category, is) ∷ doomed) d = delete_all ((category, is) ∷ doomed) d >>= some_doc

  -- `EditChainJSON` on the file that was read.
  unfoldable pub edit_chain : List FlaggedEndpoint → D.Doc → Outcome (Option D.Doc)
  unfolding dead_pairs to_delete delete_doomed
  edit_chain dead d = delete_doomed (to_delete (dead_pairs dead []) (D.apis d) []) d

  unfoldable pub edit_chain_json : String → List FlaggedEndpoint → Outcome (Option D.Doc)
  unfolding edit_chain
  edit_chain_json chain_name dead =
      wrap_outcome "EditChainJSON: " (D.read_chain chain_name >>= edit_chain dead)
