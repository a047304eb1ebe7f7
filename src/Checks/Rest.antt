-- ===== src/Checks/Rest.antt =====
-- internal/checks/rest.go: the REST probe's outcome and the two REST checks.
use chain_registry_sentinel.Base.{ℕ, String, Bool, Option, none, some, if◌then◌else◌}
use chain_registry_sentinel.Base.Time.{Duration}
use chain_registry_sentinel.Registry.{Chain, Endpoint}
use chain_registry_sentinel.Checks.Error.{GoError}
use chain_registry_sentinel.Checks.Result.{
  Result, LivenessOutcome, new_result, apply_liveness, compare_chain_id, skip,
}

-- `restNodeInfo`.
pub record NodeInfo : Type 0 where
  pub network : String
  pub tx_index : String

pub record RestProbe : Type 0 where
  pub chain : Chain
  pub endpoint : Endpoint
  -- `none` is a nil pointer.
  pub node_info : Option NodeInfo
  pub fetch_err : Option GoError
  pub net_err : Bool
  pub rate_limited : Bool
  pub status_code : ℕ
  pub body : String
  pub latency : Duration

unfoldable pub outcome : RestProbe → LivenessOutcome
outcome p = record {
  fetch_err = p.fetch_err;
  net_err = p.net_err;
  rate_limited = p.rate_limited;
  status_code = p.status_code;
  body = p.body;
  latency = p.latency;
}

-- What a passing probe adds; `none` is the panic on a nil payload.
note_node_info : Option NodeInfo → Result → Option Result
note_node_info none r = none
note_node_info (some info) r = some (record r { tx_index = info.tx_index })

unfoldable pub liveness : RestProbe → Option Result
unfolding note_node_info new_result apply_liveness outcome
liveness probe =
    let r =
      apply_liveness (new_result probe.chain probe.endpoint "rest_liveness") (outcome probe) in
    if r.passed then note_node_info probe.node_info r else some r

compare_node_info : Option NodeInfo → String → Result → Option Result
unfolding compare_chain_id
compare_node_info none want r = none
compare_node_info (some info) want r = some (compare_chain_id info.network want r)

unfoldable pub chain_id : RestProbe → Option Result
unfolding compare_node_info new_result
chain_id probe =
    let r = new_result probe.chain probe.endpoint "rest_chain_id" in
    elim probe.fetch_err [
      | some err ↦ some (skip r)
      | none ↦ compare_node_info probe.node_info probe.chain.chain_id r
    ]
