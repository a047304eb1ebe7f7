-- ===== src/Checks/Grpc.antt =====
-- internal/checks/grpc.go: the gRPC probe's outcome and the two gRPC checks.
use chain_registry_sentinel.Base.{String, Bool, Option, none, some, if◌then◌else◌}
use chain_registry_sentinel.Base.Time.{Duration}
use chain_registry_sentinel.Registry.{Chain, Endpoint}
use chain_registry_sentinel.Checks.Error.{GoError}
use chain_registry_sentinel.Checks.Result.{
  Result, LivenessOutcome, new_result, apply_liveness, compare_chain_id, skip,
}

pub record GrpcProbe : Type 0 where
  pub chain : Chain
  pub endpoint : Endpoint
  pub network : String
  pub fetch_err : Option GoError
  pub net_err : Bool
  pub rate_limited : Bool
  pub latency : Duration
  -- The gateway refused the standard method and answered the fallback query.
  pub canary_blocked : Bool

unfoldable pub outcome : GrpcProbe → LivenessOutcome
outcome p = record {
  fetch_err = p.fetch_err;
  net_err = p.net_err;
  rate_limited = p.rate_limited;
  status_code = 0;
  body = "";
  latency = p.latency;
}

unfoldable pub liveness : GrpcProbe → Result
unfolding new_result apply_liveness outcome
liveness probe =
    let r =
      apply_liveness (new_result probe.chain probe.endpoint "grpc_liveness") (outcome probe) in
    record r { method_restricted = probe.canary_blocked }

unfoldable pub chain_id : GrpcProbe → Result
unfolding compare_chain_id new_result
chain_id probe =
    let r = new_result probe.chain probe.endpoint "grpc_chain_id" in
    elim probe.fetch_err [
      | some err ↦ skip r
      | none ↦
          if probe.canary_blocked
          then skip r
          else compare_chain_id probe.network probe.chain.chain_id r
    ]
