-- ===== src/Checks/GrpcWeb.antt =====
-- internal/checks/grpc_web.go: the gRPC-web probe's outcome and the two gRPC-web checks.
use chain_registry_sentinel.Base.{ℕ, String, Bool, Option, none, some}
use chain_registry_sentinel.Base.Time.{Duration}
use chain_registry_sentinel.Registry.{Chain, Endpoint}
use chain_registry_sentinel.Checks.Error.{GoError}
use chain_registry_sentinel.Checks.Result.{
  Result, LivenessOutcome, new_result, apply_liveness, compare_chain_id, skip,
}

pub record GrpcWebProbe : Type 0 where
  pub chain : Chain
  pub endpoint : Endpoint
  pub network : String
  pub fetch_err : Option GoError
  pub net_err : Bool
  pub rate_limited : Bool
  pub status_code : ℕ
  pub body : String
  pub latency : Duration

unfoldable pub outcome : GrpcWebProbe → LivenessOutcome
outcome p = record {
  fetch_err = p.fetch_err;
  net_err = p.net_err;
  rate_limited = p.rate_limited;
  status_code = p.status_code;
  body = p.body;
  latency = p.latency;
}

unfoldable pub liveness : GrpcWebProbe → Result
unfolding new_result apply_liveness outcome
liveness probe =
    apply_liveness (new_result probe.chain probe.endpoint "grpc_web_liveness") (outcome probe)

unfoldable pub chain_id : GrpcWebProbe → Result
unfolding compare_chain_id new_result
chain_id probe =
    let r = new_result probe.chain probe.endpoint "grpc_web_chain_id" in
    elim probe.fetch_err [
      | some err ↦ skip r
      | none ↦ compare_chain_id probe.network probe.chain.chain_id r
    ]
