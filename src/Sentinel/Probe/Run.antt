-- ===== src/Sentinel/Probe/Run.antt =====
-- cmd/sentinel/probe.go: `runProbe`, with the probes of internal/checks that it calls.
pub mod Evaluated
pub mod Total
use chain_registry_sentinel.Base.{ℕ, String, Option, none, some, List}
use chain_registry_sentinel.Base.Int.{ℤ}
use chain_registry_sentinel.Checks.Fetch.{
  Decoders, probe_rpc_endpoint, probe_rest_endpoint, probe_evm_endpoint,
}
use chain_registry_sentinel.Checks.Fetch.Dialing.{Channels, probe_grpc_endpoint}
use chain_registry_sentinel.Checks.Fetch.Framed.{ReadFull, probe_grpc_web_endpoint}
use chain_registry_sentinel.Checks.Fetch.Socket.{Sockets, probe_wss_endpoint}
use chain_registry_sentinel.Checks.GrpcTarget.{Addresses}
use chain_registry_sentinel.Checks.Grpc.{GrpcProbe}
use chain_registry_sentinel.Checks.GrpcWeb.{GrpcWebProbe}
use chain_registry_sentinel.Checks.Http.{Http}
use chain_registry_sentinel.Checks.NodeInfoWire.{Wire}
use chain_registry_sentinel.Checks.Result.{Result}
use chain_registry_sentinel.Registry.{Chain, Endpoint}
use chain_registry_sentinel.Sentinel.Jobs.{
  EndpointType, Job, type_rpc, type_rest, type_grpc_web, type_grpc, type_evm, type_wss,
}
use chain_registry_sentinel.Sentinel.Probe.{
  Probe, rpc, rest, grpc_web, grpc, evm, wss, Results, evaluate, stamp_order,
}

-- The packages that the probes call.
pub record Packages : Type 1 where
  pub http : Http
  pub decoders : Decoders http
  pub read_full : ReadFull http
  pub wire : Wire
  pub sockets : Sockets http
  pub channels : Channels http.State
  pub addresses : Addresses
  pub parse_int : String → Option ℤ
  pub decimal : ℤ → String

module _ (P : Packages) where
  abbrev pub State : Type 0
  State = P.http.State

  abbrev pub as_grpc_web : Option GrpcWebProbe × State → Option (Probe × State)
  as_grpc_web (none, t) = none
  as_grpc_web (some p, t) = some (grpc_web p, t)

  abbrev pub as_grpc : Option (GrpcProbe × State) → Option (Probe × State)
  as_grpc none = none
  as_grpc (some (p, t)) = some (grpc p, t)

  -- The probe that the `switch` of `probeByType` runs; `none` is one that does not return.
  unfoldable pub probe_of :
      EndpointType → Chain → Endpoint → String → State → Option (Probe × State)
  probe_of type_rpc chain ep ua s =
      let (p, t) = probe_rpc_endpoint P.http P.decoders ua chain ep s in some (rpc p, t)
  probe_of type_rest chain ep ua s =
      let (p, t) = probe_rest_endpoint P.http P.decoders ua chain ep s in some (rest p, t)
  probe_of type_grpc_web chain ep ua s =
      as_grpc_web (probe_grpc_web_endpoint P.http P.read_full P.wire chain ep ua s)
  probe_of type_grpc chain ep ua s =
      as_grpc (probe_grpc_endpoint State P.channels P.wire P.addresses chain ep ua s)
  probe_of type_evm chain ep ua s =
      let (p, t) = probe_evm_endpoint P.http P.decoders ua chain ep s in some (evm p, t)
  probe_of type_wss chain ep ua s =
      let (p, t) = probe_wss_endpoint P.http P.sockets chain ep ua s in some (wss p, t)

  abbrev pub with_order : ℕ → State → Option Results → Option (List Result × State)
  with_order order t none = none
  with_order order t (some rs) = some (stamp_order order rs, t)

  abbrev pub of_probe : ℕ → Option (Probe × State) → Option (List Result × State)
  of_probe order none = none
  of_probe order (some (p, t)) = with_order order t (evaluate P.parse_int P.decimal p)

  -- `none` is a probe that does not return, or a panic.
  unfoldable pub run_probe : String → Job → State → Option (List Result × State)
  run_probe ua j s = of_probe j.order (probe_of j.endpoint_type j.chain j.endpoint ua s)
