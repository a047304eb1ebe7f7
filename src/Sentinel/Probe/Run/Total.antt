-- ===== src/Sentinel/Probe/Run/Total.antt =====
-- That `runProbe` (cmd/sentinel/probe.go) returns two results of its job, whatever the network does.
use chain_registry_sentinel.Base.{◌≡◌, ◌≢◌, refl, ap, ◌∙◌, Option, none, some, arith, String}
use chain_registry_sentinel.Checks.Grpc.{GrpcProbe}
use chain_registry_sentinel.Checks.GrpcWeb.{GrpcWebProbe}
use chain_registry_sentinel.Checks.Fetch.{
  probe_rpc_endpoint, probe_rest_endpoint, probe_evm_endpoint, read_evm_answer, evm_request,
}
use chain_registry_sentinel.Checks.Fetch.Answered.{
  probe_rpc_endpoint-status, probe_rest_endpoint-node_info,
}
use chain_registry_sentinel.Checks.Fetch.Called.{Called, probe_grpc_endpoint-Called}
use chain_registry_sentinel.Checks.Fetch.CallReturns.{probe_grpc_endpoint-returns}
use chain_registry_sentinel.Checks.Fetch.Dialing.{probe_grpc_endpoint}
use chain_registry_sentinel.Checks.Fetch.Framed.{probe_grpc_web_endpoint}
use chain_registry_sentinel.Checks.Fetch.Socket.{probe_wss_endpoint}
use chain_registry_sentinel.Checks.Fetch.Streamed.{
  Fetched, probe_grpc_web_endpoint-Fetched, probe_grpc_web_endpoint-returns,
}
use chain_registry_sentinel.Checks.Fetch.Upgraded.{Switches, probe_wss_endpoint-Upgraded}
use chain_registry_sentinel.Checks.Http.{client_send}
use chain_registry_sentinel.Github.Call.{Answer, not_built, not_answered, answered}
use chain_registry_sentinel.Checks.NodeInfoWire.Total.{TagsTakeBytes}
use chain_registry_sentinel.Registry.{Chain, Endpoint}
use chain_registry_sentinel.Sentinel.Jobs.{
  EndpointType, Job, type_rpc, type_rest, type_grpc_web, type_grpc, type_evm, type_wss,
}
use chain_registry_sentinel.Sentinel.Probe.{
  Probe, rpc, rest, grpc_web, grpc, evm, wss, Results, evaluate, stamp_order, probe_type,
  probe_chain, probe_endpoint,
}
use chain_registry_sentinel.Sentinel.Probe.Verdicts.{IsJudged, evaluate-IsJudged}
use chain_registry_sentinel.Sentinel.Probe.Run.Evaluated.{
  rpc-evaluated, rest-evaluated, evm-evaluated, wss-evaluated,
}
use chain_registry_sentinel.Sentinel.Probe.Run.{
  Packages, State, as_grpc, as_grpc_web, with_order, of_probe, probe_of, run_probe,
}

some_of : {A : Type 0} (o : Option A) → o ≢ none → (a : A) × (o ≡ some a)
some_of none h = absurd (h refl)
some_of (some a) h = (a, refl)

module _ (P : Packages) (chain : Chain) (ep : Endpoint) (ua : String) where
  read_evm_answer-chain :
      (a : Answer P.http.Body) → (read_evm_answer P.http P.decoders ua chain ep a).chain ≡ chain
  unfolding read_evm_answer
  read_evm_answer-chain (not_built e) = refl
  read_evm_answer-chain (not_answered e) = refl
  read_evm_answer-chain (answered status body) = ground arith

  read_evm_answer-endpoint :
      (a : Answer P.http.Body) → (read_evm_answer P.http P.decoders ua chain ep a).endpoint ≡ ep
  unfolding read_evm_answer
  read_evm_answer-endpoint (not_built e) = refl
  read_evm_answer-endpoint (not_answered e) = refl
  read_evm_answer-endpoint (answered status body) = ground arith

module _ (P : Packages) where
  -- A probe of that type and entry that the checks can be evaluated on.
  record Probed (type : EndpointType) (chain : Chain) (ep : Endpoint) (r : Option (Probe × State P))
      : Type 0 where
    pub probe : Probe
    pub state : State P
    pub probed : r ≡ some (probe, state)
    pub same_type : probe_type probe ≡ type
    pub same_chain : probe_chain probe ≡ chain
    pub same_endpoint : probe_endpoint probe ≡ ep
    pub judged : evaluate P.parse_int P.decimal probe ≢ none

  grpc_web-Probed :
      (chain : Chain) (ep : Endpoint) (r : Option GrpcWebProbe × State P)
      → r.0 ≢ none
      → Fetched P.http P.read_full P.wire chain ep r.0
      → Probed type_grpc_web chain ep (as_grpc_web P r)
  unfolding evaluate
  grpc_web-Probed chain ep (none, t) h k = absurd (h refl)
  grpc_web-Probed chain ep (some p, t) h k = record {
    probe = grpc_web p;
    state = t;
    probed = refl;
    same_type = refl;
    same_chain = k.1;
    same_endpoint = k.2;
    judged = ground arith;
  }

  grpc-Probed :
      (chain : Chain) (ep : Endpoint) (ua : String) (r : Option (GrpcProbe × State P))
      → r ≢ none
      → Called (State P) P.channels P.wire P.addresses chain ep ua r
      → Probed type_grpc chain ep (as_grpc P r)
  unfolding evaluate
  grpc-Probed chain ep ua none h k = absurd (h refl)
  grpc-Probed chain ep ua (some (p, t)) h k = record {
    probe = grpc p;
    state = t;
    probed = refl;
    same_type = refl;
    same_chain = k.same_chain;
    same_endpoint = k.same_endpoint;
    judged = ground arith;
  }

  module _ (tags : TagsTakeBytes P.wire) (switches : Switches P.http P.sockets) (ua : String) where
    probe_of-Probed :
        (type : EndpointType) (chain : Chain) (ep : Endpoint) (s : State P)
        → Probed type chain ep (probe_of P type chain ep ua s)
    unfolding probe_of probe_rpc_endpoint probe_rest_endpoint probe_evm_endpoint
    probe_of-Probed type_rpc chain ep s = record {
      probe = rpc (probe_rpc_endpoint P.http P.decoders ua chain ep s).0;
      state = (probe_rpc_endpoint P.http P.decoders ua chain ep s).1;
      probed = refl;
      same_type = refl;
      same_chain = refl;
      same_endpoint = refl;
      judged = rpc-evaluated P _ (probe_rpc_endpoint-status P.http P.decoders ua chain ep s);
    }
    probe_of-Probed type_rest chain ep s = record {
      probe = rest (probe_rest_endpoint P.http P.decoders ua chain ep s).0;
      state = (probe_rest_endpoint P.http P.decoders ua chain ep s).1;
      probed = refl;
      same_type = refl;
      same_chain = refl;
      same_endpoint = refl;
      judged = rest-evaluated P _ (probe_rest_endpoint-node_info P.http P.decoders ua chain ep s);
    }
    probe_of-Probed type_grpc_web chain ep s =
        grpc_web-Probed chain ep (probe_grpc_web_endpoint P.http P.read_full P.wire chain ep ua s)
          (probe_grpc_web_endpoint-returns P.http P.read_full P.wire chain ep tags ua s)
          (probe_grpc_web_endpoint-Fetched P.http P.read_full P.wire chain ep ua s)
    probe_of-Probed type_grpc chain ep s =
        grpc-Probed chain ep ua
          (probe_grpc_endpoint (State P) P.channels P.wire P.addresses chain ep ua s)
          (probe_grpc_endpoint-returns (State P) P.channels P.wire tags P.addresses chain ep ua s)
          (probe_grpc_endpoint-Called (State P) P.channels P.wire P.addresses chain ep ua s)
    probe_of-Probed type_evm chain ep s = record {
      probe = evm (probe_evm_endpoint P.http P.decoders ua chain ep s).0;
      state = (probe_evm_endpoint P.http P.decoders ua chain ep s).1;
      probed = refl;
      same_type = refl;
      same_chain =
          read_evm_answer-chain P chain ep ua
            (client_send P.http ua (evm_request P.http P.decoders ua chain ep) s).0;
      same_endpoint =
          read_evm_answer-endpoint P chain ep ua
            (client_send P.http ua (evm_request P.http P.decoders ua chain ep) s).0;
      judged = evm-evaluated P _;
    }
    probe_of-Probed type_wss chain ep s =
        let upgraded = probe_wss_endpoint-Upgraded P.http P.sockets chain ep ua s switches in
        record {
          probe = wss (probe_wss_endpoint P.http P.sockets chain ep ua s).0;
          state = (probe_wss_endpoint P.http P.sockets chain ep ua s).1;
          probed = refl;
          same_type = refl;
          same_chain = upgraded.1;
          same_endpoint = upgraded.2;
          judged = wss-evaluated P _;
        }

    -- What a run of a job's probe gives: two results of that job, judged, in the job's place of the list.
    pub record Returns (j : Job) (s : State P) : Type 0 where
      pub probe : Probe
      pub judged : Results
      pub state : State P
      pub returned : run_probe P ua j s ≡ some (stamp_order j.order judged, state)
      pub same_type : probe_type probe ≡ j.endpoint_type
      pub same_chain : probe_chain probe ≡ j.chain
      pub same_endpoint : probe_endpoint probe ≡ j.endpoint
      pub is_judged : IsJudged probe judged

    -- The probe of a job of any of the six types returns, whatever the network answers and whatever
    -- bytes a node sends: no decoding runs on, and no check reads a nil pointer. It gives exactly two
    -- results, of the job's type, chain and endpoint, with the job's position, that are judged
    -- consistently. Assumed is that a protowire tag takes at least one byte, and that a WebSocket is
    -- opened at status 101 only.
    pub run_probe-Returns : (j : Job) (s : State P) → Returns j s
    unfolding run_probe
    run_probe-Returns j s =
        let p = probe_of-Probed j.endpoint_type j.chain j.endpoint s in
        let (rs, e) = some_of (evaluate P.parse_int P.decimal p.probe) p.judged in
        record {
          probe = p.probe;
          judged = rs;
          state = p.state;
          returned = ap (of_probe P j.order) p.probed ∙ ap (with_order P j.order p.state) e;
          same_type = p.same_type;
          same_chain = p.same_chain;
          same_endpoint = p.same_endpoint;
          is_judged = evaluate-IsJudged P.parse_int P.decimal p.probe e;
        }
