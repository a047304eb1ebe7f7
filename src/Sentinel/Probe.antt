-- ===== src/Sentinel/Probe.antt =====
-- cmd/sentinel/probe.go: `probeByType` behind the probes, and `runProbe`.
pub mod Verdicts
pub mod Run
use chain_registry_sentinel.Base.{ℕ, String, Option, none, some, List, [], ◌∷◌, map}
use chain_registry_sentinel.Base.Int.{ℤ}
use chain_registry_sentinel.Registry.{Chain, Endpoint}
use chain_registry_sentinel.Checks.Rpc.{EndpointProbe}
use chain_registry_sentinel.Checks.Rest.{RestProbe}
use chain_registry_sentinel.Checks.GrpcWeb.{GrpcWebProbe}
use chain_registry_sentinel.Checks.Grpc.{GrpcProbe}
use chain_registry_sentinel.Checks.Evm.{EvmProbe}
use chain_registry_sentinel.Checks.Wss.{WssProbe}
use chain_registry_sentinel.Checks.Rpc
use chain_registry_sentinel.Checks.Rest
use chain_registry_sentinel.Checks.GrpcWeb
use chain_registry_sentinel.Checks.Grpc
use chain_registry_sentinel.Checks.Evm
use chain_registry_sentinel.Checks.Wss
use chain_registry_sentinel.Checks.Result.{Result}
use chain_registry_sentinel.Sentinel.Jobs.{
  EndpointType, type_rpc, type_rest, type_grpc_web, type_grpc, type_evm, type_wss,
}

-- What the probe of a job of each type returns.
pub data Probe : Type 0 where
  rpc : EndpointProbe → Probe
  rest : RestProbe → Probe
  grpc_web : GrpcWebProbe → Probe
  grpc : GrpcProbe → Probe
  evm : EvmProbe → Probe
  wss : WssProbe → Probe

abbrev pub probe_type : Probe → EndpointType
probe_type (rpc p) = type_rpc
probe_type (rest p) = type_rest
probe_type (grpc_web p) = type_grpc_web
probe_type (grpc p) = type_grpc
probe_type (evm p) = type_evm
probe_type (wss p) = type_wss

abbrev pub probe_chain : Probe → Chain
probe_chain (rpc p) = p.chain
probe_chain (rest p) = p.chain
probe_chain (grpc_web p) = p.chain
probe_chain (grpc p) = p.chain
probe_chain (evm p) = p.chain
probe_chain (wss p) = p.chain

abbrev pub probe_endpoint : Probe → Endpoint
probe_endpoint (rpc p) = p.endpoint
probe_endpoint (rest p) = p.endpoint
probe_endpoint (grpc_web p) = p.endpoint
probe_endpoint (grpc p) = p.endpoint
probe_endpoint (evm p) = p.endpoint
probe_endpoint (wss p) = p.endpoint

-- The two results of a probe, the liveness check's first.
pub record Results : Type 0 where
  pub liveness : Result
  pub chain_id : Result

abbrev pub both : Option Result → Option Result → Option Results
both none c = none
both (some l) none = none
both (some l) (some c) = some (record { liveness = l; chain_id = c })

module _ (parse_int : String → Option ℤ) (decimal : ℤ → String) where
  -- The `switch` of `probeByType`; `none` is the panic on a nil payload.
  unfoldable pub evaluate : Probe → Option Results
  unfolding Rpc.liveness Rpc.chain_id Rest.liveness Rest.chain_id GrpcWeb.liveness GrpcWeb.chain_id
      Grpc.liveness Grpc.chain_id Evm.liveness Evm.chain_id Wss.liveness Wss.chain_id
  evaluate (rpc p) = both (Rpc.liveness p) (Rpc.chain_id p)
  evaluate (rest p) = both (Rest.liveness p) (Rest.chain_id p)
  evaluate (grpc_web p) =
      some (record { liveness = GrpcWeb.liveness p; chain_id = GrpcWeb.chain_id p })
  evaluate (grpc p) = some (record { liveness = Grpc.liveness p; chain_id = Grpc.chain_id p })
  evaluate (evm p) =
      some (record { liveness = Evm.liveness p; chain_id = Evm.chain_id parse_int decimal p })
  evaluate (wss p) = some (record { liveness = Wss.liveness p; chain_id = Wss.chain_id p })

-- `runProbe`: the results with the job's position stamped in.
unfoldable pub stamp_order : ℕ → Results → List Result
stamp_order order rs =
    map {A = Result} (λ r. record r { endpoint_order = order }) (rs.liveness ∷ rs.chain_id ∷ [])
