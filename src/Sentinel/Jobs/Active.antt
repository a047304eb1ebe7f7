-- ===== src/Sentinel/Jobs/Active.antt =====
-- `buildActiveLivenessKeys` (cmd/sentinel/probe.go), against the jobs of a run.
use chain_registry_sentinel.Base.{
  ◌≡◌, refl, ap, ◌∙◌, String, Bool, ◌&&◌, ◌||◌, List, [], ◌∷◌, arith, any, str_eq, eq_iff,
}
use chain_registry_sentinel.Base.Map.{Dict, lookup, insert, is_some, or_zero, lookup-insert}
use chain_registry_sentinel.Base.Text.{◌+s◌}
use chain_registry_sentinel.State.{endpoint_key}
use chain_registry_sentinel.Sentinel.Jobs.{
  Job, EndpointType, type_rpc, type_rest, type_grpc_web, type_grpc, type_evm, type_wss,
  liveness_check_name, liveness_key, note_active, active_from, build_active_liveness_keys,
}

-- Whether a key of a chain is active.
unfoldable pub is_active : Dict (Dict (Unit {0})) → String → String → Bool
is_active active name k = is_some (lookup k (or_zero [] (lookup name active)))

-- The name of the liveness check of each endpoint type, as it stands in the state files.
abbrev pub check_of : EndpointType → String
check_of type_rpc = "rpc_liveness"
check_of type_rest = "rest_liveness"
check_of type_grpc_web = "grpc_web_liveness"
check_of type_grpc = "grpc_liveness"
check_of type_evm = "evm_liveness"
check_of type_wss = "wss_liveness"

-- Whether a job is on that chain, and the key is that of its check and address.
pub keeps_alive : String → String → Job → Bool
keeps_alive name k j =
    str_eq j.chain.name name && str_eq (check_of j.endpoint_type +s "|" +s j.endpoint.address) k

check_of-name : (t : EndpointType) → liveness_check_name t ≡ check_of t
unfolding liveness_check_name
check_of-name type_rpc = refl
check_of-name type_rest = refl
check_of-name type_grpc_web = refl
check_of-name type_grpc = refl
check_of-name type_evm = refl
check_of-name type_wss = refl

liveness_key-check_of :
    (j : Job) → liveness_key j ≡ check_of j.endpoint_type +s "|" +s j.endpoint.address
unfolding liveness_key liveness_check_name endpoint_key
liveness_key-check_of j = ap (λ c. c +s "|" +s j.endpoint.address) (check_of-name j.endpoint_type)

note_active-is_active :
    (name k : String) (j : Job) (active : Dict (Dict (Unit {0})))
    → is_active (note_active j active) name k ≡ (keeps_alive name k j || is_active active name k)
unfolding is_active keeps_alive note_active
note_active-is_active name k j active =
    let keys = or_zero [] (lookup j.chain.name active) in
    ground (
      arith,
      lookup-insert j.chain.name name (insert (liveness_key j) tt keys) active,
      lookup-insert (liveness_key j) k tt keys,
      eq_iff j.chain.name name,
      liveness_key-check_of j,
    )

active_from-is_active :
    (name k : String) (jobs : List Job) (active : Dict (Dict (Unit {0})))
    → is_active (active_from active jobs) name k
      ≡ (is_active active name k || any (keeps_alive name k) jobs)
unfolding active_from
active_from-is_active name k [] active = ground arith
active_from-is_active name k (j ∷ jobs) active = ground (
  arith,
  note_active-is_active name k j active,
  active_from-is_active name k jobs (note_active j active),
)

nothing_active : (name k : String) (b : Bool) → (is_active [] name k || b) ≡ b
unfolding is_active lookup
nothing_active name k b = refl

-- A key of a chain is in the active set exactly when some job of the run is on that chain and the key
-- is the name of its type's liveness check, a bar and its endpoint's address.
pub build_active_liveness_keys-is_active :
    (name k : String) (jobs : List Job)
    → is_active (build_active_liveness_keys jobs) name k ≡ any (keeps_alive name k) jobs
unfolding build_active_liveness_keys
build_active_liveness_keys-is_active name k jobs =
    active_from-is_active name k jobs [] ∙ nothing_active name k (any (keeps_alive name k) jobs)
