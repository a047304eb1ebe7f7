-- ===== src/Checks/Fetch/Dialing.antt =====
-- internal/checks/grpc.go: `ProbeGRPCEndpoint`. grpc-go is an argument.
use chain_registry_sentinel.Base.{
  Bool, true, false, not, ◌&&◌, Option, none, some, List, [], ◌∷◌, String, str_eq, if◌then◌else◌,
}
use chain_registry_sentinel.Base.Int.{pos}
use chain_registry_sentinel.Base.Text.{contains}
use chain_registry_sentinel.Base.Time.{Duration}
use chain_registry_sentinel.Checks.Error.{
  GoError, Status, Code, unavailable, deadline_exceeded, other_code, wrap,
}
use chain_registry_sentinel.Checks.Grpc.{GrpcProbe}
use chain_registry_sentinel.Checks.GrpcTarget.{Addresses, Target, parse_grpc_target}
use chain_registry_sentinel.Checks.NodeInfoWire.{Data, Wire, decode_get_node_info_network}
use chain_registry_sentinel.Github.Outcome.{Outcome, ok, err}
use chain_registry_sentinel.Registry.{Chain, Endpoint}

-- `grpc.NewClient` with TLS or without and with the user agent, if there is one, and `conn.Invoke` with
-- an empty request, which gives the bytes of the response.
pub record Channels (State : Type 0) : Type 1 where
  pub Conn : Type 0
  pub new_client : String → Bool → Option String → Outcome Conn
  pub invoke : Conn → String → State → Outcome Data × State
  pub since : State → State → Duration

abbrev pub get_node_info_method : String
get_node_info_method = "/cosmos.base.tendermint.v1beta1.Service/GetNodeInfo"

abbrev pub total_supply_method : String
total_supply_method = "/cosmos.bank.v1beta1.Query/TotalSupply"

abbrev is_refusal_code : Code → Bool
is_refusal_code other_code = true
is_refusal_code _ = false

abbrev pub is_refusal : Option Status → Bool
is_refusal none = false
is_refusal (some st) =
    is_refusal_code st.code
    && (not (contains st.message "unexpected HTTP status code")
        && not (contains st.message "content-type \"text/html\""))

unfoldable pub grpc_app_level_refusal : GoError → Bool
grpc_app_level_refusal e = is_refusal e.grpc_status

-- `st, ok := status.FromError(err); ok && st.Code() == codes.Unavailable`.
abbrev is_unavailable_code : Code → Bool
is_unavailable_code unavailable = true
is_unavailable_code _ = false

abbrev unavailable_status : Option Status → Bool
unavailable_status none = false
unavailable_status (some st) = is_unavailable_code st.code

unfoldable pub tries_next : GoError → Bool
tries_next e = unavailable_status e.grpc_status

-- The error that is kept of the modes tried so far.
unfoldable pub keep_error : Option GoError → GoError → GoError
keep_error none e = e
keep_error (some kept) e =
    if contains kept.message "first record does not look like a TLS handshake" then e else kept

abbrev pub agent_of : String → Option String
agent_of ua = if str_eq ua "" then none else some ua

module _ (State : Type 0) (C : Channels State) (W : Wire) where
  -- The network, and whether the gateway refused the canary; `none` is a decoding that does not end.
  abbrev pub Invoked : Type 0
  Invoked = Option (Outcome (String × Bool)) × State

  abbrev pub of_decoded : Option (Outcome String) → Option (Outcome (String × Bool))
  of_decoded none = none
  of_decoded (some (err e)) = some (err (wrap "decode response: " e))
  of_decoded (some (ok network)) = some (ok (network, false))

  abbrev pub of_supply : GoError → Outcome Data × State → Invoked
  of_supply e (ok bytes, t) = (some (ok ("", true)), t)
  of_supply e (err e2, t) = (some (err e), t)

  abbrev pub of_canary : C.Conn → Outcome Data × State → Invoked
  of_canary conn (ok bytes, t) = (of_decoded (decode_get_node_info_network W bytes), t)
  of_canary conn (err e, t) =
      if grpc_app_level_refusal e
      then of_supply e (C.invoke conn total_supply_method t)
      else (some (err e), t)

  abbrev pub of_client : State → Outcome C.Conn → Invoked
  of_client s (err e) = (some (err (wrap "dial: " e)), s)
  of_client s (ok conn) = of_canary conn (C.invoke conn get_node_info_method s)

  unfoldable pub invoke_grpc : String → Bool → String → State → Invoked
  invoke_grpc target use_tls ua s = of_client s (C.new_client target use_tls (agent_of ua))

  -- What the loop over the modes ends with.
  pub data Tried : Type 0 where
    answers : String → Bool → Tried
    gives_up : Option GoError → Tried

  module _ (target ua : String) where
    abbrev pub next_mode :
        Option GoError
        → Invoked
        → (Option GoError → State → Option (Tried × State))
        → Option (Tried × State)
    next_mode kept (none, t) next = none
    next_mode kept (some (ok (network, blocked)), t) next = some (answers network blocked, t)
    next_mode kept (some (err e), t) next =
        if tries_next e
        then next (some (keep_error kept e)) t
        else some (gives_up (some (keep_error kept e)), t)

    unfoldable pub try_modes : List Bool → Option GoError → State → Option (Tried × State)
    try_modes [] kept s = some (gives_up kept, s)
    try_modes (use_tls ∷ modes) kept s =
        next_mode kept (invoke_grpc target use_tls ua s) (λ k t. try_modes modes k t)

  module _ (A : Addresses) (chain : Chain) (ep : Endpoint) where
    abbrev new_grpc_probe : GrpcProbe
    new_grpc_probe = record {
      chain = chain;
      endpoint = ep;
      network = "";
      fetch_err = none;
      net_err = false;
      rate_limited = false;
      latency = pos 0;
      canary_blocked = false;
    }

    abbrev is_net_code : Code → Bool
    is_net_code unavailable = true
    is_net_code deadline_exceeded = true
    is_net_code _ = false

    abbrev pub of_grpc_status : GoError → Option Status → GrpcProbe
    of_grpc_status e none = record new_grpc_probe { fetch_err = some e }
    of_grpc_status e (some st) = record new_grpc_probe {
      fetch_err = some e;
      net_err = is_net_code st.code;
      rate_limited = contains st.message "429 (Too Many Requests)";
    }

    -- The status of a nil error is `OK`, with no message.
    unfoldable pub of_tried : Tried → GrpcProbe
    of_tried (answers network blocked) = record new_grpc_probe {
      network = network;
      canary_blocked = blocked;
    }
    of_tried (gives_up none) = new_grpc_probe
    of_tried (gives_up (some e)) = of_grpc_status e e.grpc_status

    abbrev pub timed_grpc : State → Option (Tried × State) → Option (GrpcProbe × State)
    timed_grpc s none = none
    timed_grpc s (some (tried, t)) = some (record (of_tried tried) { latency = C.since s t }, t)

    abbrev pub of_target : String → State → Outcome Target → Option (GrpcProbe × State)
    of_target ua s (err e) =
        some (record new_grpc_probe { fetch_err = some e; latency = C.since s s }, s)
    of_target ua s (ok target) = timed_grpc s (try_modes target.target ua target.modes none s)

    unfoldable pub probe_grpc_endpoint : String → State → Option (GrpcProbe × State)
    probe_grpc_endpoint ua s = of_target ua s (parse_grpc_target A ep.address)
