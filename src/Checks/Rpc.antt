-- ===== src/Checks/Rpc.antt =====
-- internal/checks/rpc.go: the `/status` payload and the two RPC checks; the probe of check.go.
use chain_registry_sentinel.Base.{ℕ, String, Bool, Option, none, some, str_eq, if◌then◌else◌}
use chain_registry_sentinel.Base.Time.{Time, Duration}
use chain_registry_sentinel.Registry.{Chain, Endpoint}
use chain_registry_sentinel.Checks.Error.{GoError}
use chain_registry_sentinel.Checks.Result.{
  Result, LivenessOutcome, new_result, apply_liveness, compare_chain_id, skip,
}

pub record NodeInfo : Type 0 where
  pub network : String
  pub tx_index : String

pub record SyncInfo : Type 0 where
  pub catching_up : Bool
  pub latest_block_time : Time

-- `rpcStatus`: the payload with the result wrapper, and the one without.
pub record RpcStatus : Type 0 where
  pub result_node_info : NodeInfo
  pub result_sync_info : SyncInfo
  pub direct_node_info : NodeInfo
  pub direct_sync_info : SyncInfo

unfoldable pub node_info : RpcStatus → NodeInfo
node_info s =
    if str_eq s.result_node_info.network "" then s.direct_node_info else s.result_node_info

unfoldable pub sync_info : RpcStatus → SyncInfo
sync_info s =
    if str_eq s.result_node_info.network "" then s.direct_sync_info else s.result_sync_info

pub record EndpointProbe : Type 0 where
  pub chain : Chain
  pub endpoint : Endpoint
  -- `none` is a nil pointer.
  pub status : Option RpcStatus
  pub fetch_err : Option GoError
  pub net_err : Bool
  pub rate_limited : Bool
  pub status_code : ℕ
  pub body : String
  pub latency : Duration

unfoldable pub outcome : EndpointProbe → LivenessOutcome
outcome p = record {
  fetch_err = p.fetch_err;
  net_err = p.net_err;
  rate_limited = p.rate_limited;
  status_code = p.status_code;
  body = p.body;
  latency = p.latency;
}

-- What a passing probe adds; `none` is the panic on a nil status.
note_status : Option RpcStatus → Result → Option Result
unfolding node_info sync_info
note_status none r = none
note_status (some s) r = some (record r {
  catching_up = (sync_info s).catching_up;
  latest_block_time = (sync_info s).latest_block_time;
  tx_index = (node_info s).tx_index;
})

unfoldable pub liveness : EndpointProbe → Option Result
unfolding note_status new_result apply_liveness outcome
liveness probe =
    let r = apply_liveness (new_result probe.chain probe.endpoint "rpc_liveness") (outcome probe) in
    if r.passed then note_status probe.status r else some r

compare_status : Option RpcStatus → String → Result → Option Result
unfolding node_info compare_chain_id
compare_status none want r = none
compare_status (some s) want r = some (compare_chain_id (node_info s).network want r)

unfoldable pub chain_id : EndpointProbe → Option Result
unfolding compare_status new_result
chain_id probe =
    let r = new_result probe.chain probe.endpoint "rpc_chain_id" in
    elim probe.fetch_err [
      | some err ↦ some (skip r)
      | none ↦ compare_status probe.status probe.chain.chain_id r
    ]
