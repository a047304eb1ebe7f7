-- ===== src/Checks/Fetch.antt =====
-- internal/checks/rpc.go, rest.go, evm.go: the probes that read one JSON answer.
pub mod Answered
pub mod Framed
pub mod Socket
pub mod Streamed
pub mod Upgraded
pub mod Called
pub mod CallReturns
pub mod Dialing
use chain_registry_sentinel.Base.{
  ℕ, Bool, true, false, Option, none, some, [], ◌∷◌, ◌==◌, String, if◌then◌else◌,
}
use chain_registry_sentinel.Base.Int.{ℤ, pos}
use chain_registry_sentinel.Base.Text.{◌+s◌, trim_prefix}
use chain_registry_sentinel.Base.Trim.{trim_right}
use chain_registry_sentinel.Checks.Error.{GoError, errorf, wrap}
use chain_registry_sentinel.Checks.Evm.{EvmProbe}
use chain_registry_sentinel.Checks.Http.{
  Http, HttpRequest, HttpResult, post_verb, client_send, read_body_prefix, http_get_json,
}
use chain_registry_sentinel.Checks.Rest.{NodeInfo, RestProbe}
use chain_registry_sentinel.Checks.Rpc.{RpcStatus, EndpointProbe}
use chain_registry_sentinel.Github.Outcome.{Outcome, ok, err}
use chain_registry_sentinel.Github.Call.{Answer, not_built, not_answered, answered}
use chain_registry_sentinel.Registry.{Chain, Endpoint}

-- `strings.TrimRight(address, "/")`.
abbrev pub base_url : String → String
base_url address = trim_right (λ c. c == 47) address

-- The answer to `eth_chainId`: the result, and the error's message.
pub record EvmResponse : Type 0 where
  pub result : String
  pub error : Option String

-- `json.Decode` into the structs of the probes, `strconv.ParseInt(s, 16, 64)` and `%q`.
pub record Decoders (H : Http) : Type 0 where
  pub status : H.Body → Outcome RpcStatus
  pub node_info : H.Body → Outcome NodeInfo
  pub evm : H.Body → Outcome EvmResponse
  pub parse_hex : String → Outcome ℤ
  pub quoted : String → String

abbrev pub is_err : Option GoError → Bool
is_err none = false
is_err (some e) = true

abbrev pub evm_chain_id_payload : String
evm_chain_id_payload = "{\"jsonrpc\":\"2.0\",\"method\":\"eth_chainId\",\"params\":[],\"id\":1}"

module _ (H : Http) (D : Decoders H) (ua : String) (chain : Chain) (ep : Endpoint) where
  -- `ProbeEndpoint`.
  unfoldable pub probe_rpc_endpoint : H.State → EndpointProbe × H.State
  probe_rpc_endpoint s =
      let ((res, dest), t) = http_get_json H D.status ua (base_url ep.address +s "/status") s in
      let failed = is_err res.error in
      (
        record {
          chain = chain;
          endpoint = ep;
          status = if failed then none else dest;
          fetch_err = res.error;
          net_err = if failed then res.net_err else false;
          rate_limited = if failed then res.status_code == 429 else false;
          status_code = res.status_code;
          body = res.body;
          latency = res.latency;
        },
        t,
      )

  unfoldable pub probe_rest_endpoint : H.State → RestProbe × H.State
  probe_rest_endpoint s =
      let url = base_url ep.address +s "/cosmos/base/tendermint/v1beta1/node_info" in
      let ((res, dest), t) = http_get_json H D.node_info ua url s in
      let failed = is_err res.error in
      (
        record {
          chain = chain;
          endpoint = ep;
          node_info = if failed then none else dest;
          fetch_err = res.error;
          net_err = if failed then res.net_err else false;
          rate_limited = if failed then res.status_code == 429 else false;
          status_code = res.status_code;
          body = res.body;
          latency = res.latency;
        },
        t,
      )

  abbrev new_evm_probe : EvmProbe
  new_evm_probe = record {
    chain = chain;
    endpoint = ep;
    chain_id = pos 0;
    fetch_err = none;
    net_err = false;
    rate_limited = false;
    status_code = 0;
    body = "";
    latency = pos 0;
  }

  abbrev of_hex : ℕ → String → Outcome ℤ → EvmProbe
  of_hex code result (ok id) = record new_evm_probe { status_code = code; chain_id = id }
  of_hex code result (err e) = record new_evm_probe {
    status_code = code;
    fetch_err = some (wrap ("parse chain id " +s D.quoted result +s ": ") e);
  }

  abbrev of_reply : ℕ → String → Option String → EvmProbe
  of_reply code result (some message) = record new_evm_probe {
    status_code = code;
    fetch_err = some (errorf ("json-rpc error: " +s message));
  }
  of_reply code result none = of_hex code result (D.parse_hex (trim_prefix result "0x"))

  abbrev of_response : ℕ → Outcome EvmResponse → EvmProbe
  of_response code (err e) = record new_evm_probe {
    status_code = code;
    fetch_err = some (wrap "decode: " e);
  }
  of_response code (ok reply) = of_reply code reply.result reply.error

  -- `ProbeEVMEndpoint` at what its request gave.
  unfoldable pub read_evm_answer : Answer H.Body → EvmProbe
  unfolding errorf
  read_evm_answer (not_built e) = record new_evm_probe { fetch_err = some e }
  read_evm_answer (not_answered e) = record new_evm_probe { fetch_err = some e; net_err = true }
  read_evm_answer (answered code body) =
      if code == 200 then of_response code (D.evm body) else record new_evm_probe {
        status_code = code;
        body = read_body_prefix H body;
        fetch_err = some (errorf ("HTTP " +s H.decimal code));
        rate_limited = code == 429;
      }

  abbrev pub evm_request : HttpRequest
  evm_request = record {
    verb = post_verb;
    url = base_url ep.address;
    headers = ("Content-Type", "application/json") ∷ [];
    text = evm_chain_id_payload;
    bytes = [];
  }

  unfoldable pub probe_evm_endpoint : H.State → EvmProbe × H.State
  unfolding read_evm_answer
  probe_evm_endpoint s =
      let (answer, t) = client_send H ua evm_request s in
      (record (read_evm_answer answer) { latency = H.since s t }, t)
