-- ===== src/Sentinel/Jobs.antt =====
-- cmd/sentinel/probe.go: endpoint types, the jobs of a run and the keys that they keep alive.
pub mod Distinct
pub mod Declared
pub mod Active
pub mod Keys
pub mod Covered
use chain_registry_sentinel.Base.{ℕ, suc, String, List, [], ◌∷◌, ◌++◌, str_eq, if◌then◌else◌}
use chain_registry_sentinel.Base.Map.{Dict, lookup, insert, or_zero, is_some}
use chain_registry_sentinel.Base.Text.{◌+s◌}
use chain_registry_sentinel.Registry.{Chain, Endpoint}
use chain_registry_sentinel.State.{endpoint_key}

-- `iota` gives no other value to an `EndpointType` of the program.
pub data EndpointType : Type 0 where
  type_rpc type_rest type_grpc_web type_grpc type_evm type_wss : EndpointType

-- `EndpointType.String`.
unfoldable pub type_string : EndpointType → String
type_string type_rpc = "rpc"
type_string type_rest = "rest"
type_string type_grpc_web = "grpc-web"
type_string type_grpc = "grpc"
type_string type_evm = "evm"
type_string type_wss = "wss"

unfoldable pub liveness_check_name : EndpointType → String
liveness_check_name type_rpc = "rpc_liveness"
liveness_check_name type_rest = "rest_liveness"
liveness_check_name type_grpc_web = "grpc_web_liveness"
liveness_check_name type_grpc = "grpc_liveness"
liveness_check_name type_evm = "evm_liveness"
liveness_check_name type_wss = "wss_liveness"

pub record Job : Type 0 where
  pub chain : Chain
  pub endpoint : Endpoint
  pub endpoint_type : EndpointType
  -- The 1-based position in the type's list.
  pub order : ℕ

-- The key of the set `seen`.
unfoldable pub job_key : EndpointType → String → String
unfolding type_string
job_key t address = type_string t +s "|" +s address

abbrev pub Seen : Type 0
Seen = Dict (Unit {0})

-- The loop of `add`, from position `i` on: the jobs that it appends, and `seen` behind it.
unfoldable pub add_from : Chain → EndpointType → ℕ → List Endpoint → Seen → List Job × Seen
unfolding job_key
add_from ch t i [] seen = ([], seen)
add_from ch t i (ep ∷ eps) seen =
    let key = job_key t ep.address in
    let dup = add_from ch t (suc i) eps seen in
    let (jobs, seen') = add_from ch t (suc i) eps (insert key tt seen) in
    if is_some (lookup key seen)
    then dup
    else (record { chain = ch; endpoint = ep; endpoint_type = t; order = suc i } ∷ jobs, seen')

-- The calls of `add`, in order, over one `seen`.
unfoldable pub add_all : Chain → List (List Endpoint × EndpointType) → Seen → List Job × Seen
unfolding add_from
add_all ch [] seen = ([], seen)
add_all ch ((eps, t) ∷ lists) seen =
    let (jobs, seen') = add_from ch t 0 eps seen in
    let (more, seen'') = add_all ch lists seen' in (jobs ++ more, seen'')

-- The lists that the `switch` on the chain type adds.
unfoldable pub declared : Chain → List (List Endpoint × EndpointType)
declared ch =
    if str_eq ch.chain_type "cosmos"
    then (ch.rpcs, type_rpc)
      ∷ (ch.rest_endpoints, type_rest)
      ∷ (ch.grpc_web_endpoints, type_grpc_web)
      ∷ (ch.grpc_endpoints, type_grpc)
      ∷ (ch.wss_endpoints, type_wss)
      ∷ (ch.evm_endpoints, type_evm)
      ∷ []
    else if str_eq ch.chain_type "eip155"
    then (ch.evm_endpoints, type_evm) ∷ []
    else []

unfoldable pub chain_jobs : Chain → List Job
unfolding add_all declared
chain_jobs ch = (add_all ch (declared ch) []).0

unfoldable pub build_jobs : List Chain → List Job
unfolding chain_jobs
build_jobs [] = []
build_jobs (ch ∷ chains) = chain_jobs ch ++ build_jobs chains

-- `state.EndpointKey(checkName, j.endpoint.Address)`. Every endpoint type has a check name.
unfoldable pub liveness_key : Job → String
unfolding liveness_check_name endpoint_key
liveness_key j = endpoint_key (liveness_check_name j.endpoint_type) j.endpoint.address

-- One round of `buildActiveLivenessKeys`.
unfoldable pub note_active : Job → Dict (Dict (Unit {0})) → Dict (Dict (Unit {0}))
unfolding liveness_key
note_active j active =
    insert j.chain.name (insert (liveness_key j) tt (or_zero [] (lookup j.chain.name active)))
      active

active_from : Dict (Dict (Unit {0})) → List Job → Dict (Dict (Unit {0}))
unfolding note_active
active_from active [] = active
active_from active (j ∷ jobs) = active_from (note_active j active) jobs

unfoldable pub build_active_liveness_keys : List Job → Dict (Dict (Unit {0}))
unfolding active_from
build_active_liveness_keys = active_from []
