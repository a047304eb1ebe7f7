-- ===== src/Checks/Fetch/Answered.antt =====
-- What a probe of internal/checks may say together about its request: error, status, throttling, body.
use chain_registry_sentinel.Base.{
  ℕ, ◌≡◌, ◌≢◌, ◌↔◌, true, false, Option, none, some, arith, ◌==◌, String, if◌then◌else◌,
}
use chain_registry_sentinel.Base.Trim.{every_char, every_char-nil}
use chain_registry_sentinel.Checks.Error.{GoError}
use chain_registry_sentinel.Checks.Evm.{EvmProbe}
use chain_registry_sentinel.Checks.Evm
use chain_registry_sentinel.Checks.Rest.{NodeInfo, RestProbe}
use chain_registry_sentinel.Checks.Rest
use chain_registry_sentinel.Checks.Rpc.{RpcStatus, EndpointProbe}
use chain_registry_sentinel.Checks.Rpc
use chain_registry_sentinel.Checks.Result.{LivenessOutcome}
use chain_registry_sentinel.Checks.Http.{Http, HttpResult, client_send}
use chain_registry_sentinel.Checks.Http.Sound.{
  printable, IsRead, http_get_json-IsRead, http_get_json-decoded, read_body_prefix-every_char,
}
use chain_registry_sentinel.Checks.Fetch.{
  Decoders, is_err, evm_request, probe_rpc_endpoint, probe_rest_endpoint, probe_evm_endpoint,
  read_evm_answer,
}
use chain_registry_sentinel.Github.Call.{Answer, not_built, not_answered, answered}
use chain_registry_sentinel.Registry.{Chain, Endpoint}

-- A probe counts as throttled exactly at a status of 429, and has an error then; a connection error
-- comes with neither a status nor a body; without an error the status was that of a success; a body is kept on one
-- line, and only of a refused request.
pub record IsFetched (success : ℕ) (o : LivenessOutcome) : Type 0 where
  pub throttled_iff : (o.rate_limited ≡ true) ↔ (o.status_code ≡ 429)
  pub throttled_err : o.rate_limited ≡ true → o.fetch_err ≢ none
  pub no_connection : o.net_err ≡ true → (o.fetch_err ≢ none) × (o.status_code ≡ 0) × (o.body ≡ "")
  pub fetched : o.fetch_err ≡ none → (o.status_code ≡ success) × (o.body ≡ "")
  pub one_line : every_char printable o.body ≡ true

-- The fields that the RPC and the REST probe take from the result.
abbrev of_result : HttpResult → LivenessOutcome
of_result res =
    let failed = is_err res.error in
    record {
      fetch_err = res.error;
      net_err = if failed then res.net_err else false;
      rate_limited = if failed then res.status_code == 429 else false;
      status_code = res.status_code;
      body = res.body;
      latency = res.latency;
    }

of_result-IsFetched : (res : HttpResult) → IsRead res → IsFetched 200 (of_result res)
of_result-IsFetched res h = ground (arith, h.no_connection, h.read, h.one_line)

if-is_err :
    {A : Type 0} (e : Option GoError) {dest : Option A}
    → e ≡ none
    → dest ≢ none
    → (if is_err e then none else dest) ≢ none
if-is_err none h k = k
if-is_err (some e) h k = ground arith

module _ (H : Http) (D : Decoders H) (ua : String) (chain : Chain) (ep : Endpoint) where
  pub probe_rpc_endpoint-IsFetched :
      (s : H.State) → IsFetched 200 (Rpc.outcome (probe_rpc_endpoint H D ua chain ep s).0)
  unfolding Rpc.outcome probe_rpc_endpoint
  probe_rpc_endpoint-IsFetched s = of_result-IsFetched _ (http_get_json-IsRead H D.status ua _ s)

  pub probe_rest_endpoint-IsFetched :
      (s : H.State) → IsFetched 200 (Rest.outcome (probe_rest_endpoint H D ua chain ep s).0)
  unfolding Rest.outcome probe_rest_endpoint
  probe_rest_endpoint-IsFetched s =
      of_result-IsFetched _ (http_get_json-IsRead H D.node_info ua _ s)

  -- Without an error the payload is there, so that no check reads a nil pointer.
  pub probe_rpc_endpoint-status :
      (s : H.State)
      → (probe_rpc_endpoint H D ua chain ep s).0.fetch_err ≡ none
      → (probe_rpc_endpoint H D ua chain ep s).0.status ≢ none
  unfolding probe_rpc_endpoint
  probe_rpc_endpoint-status s h = if-is_err _ h (http_get_json-decoded H D.status ua _ s h)

  pub probe_rest_endpoint-node_info :
      (s : H.State)
      → (probe_rest_endpoint H D ua chain ep s).0.fetch_err ≡ none
      → (probe_rest_endpoint H D ua chain ep s).0.node_info ≢ none
  unfolding probe_rest_endpoint
  probe_rest_endpoint-node_info s h = if-is_err _ h (http_get_json-decoded H D.node_info ua _ s h)

  read_evm_answer-IsFetched :
      (a : Answer H.Body) → IsFetched 200 (Evm.outcome (read_evm_answer H D ua chain ep a))
  unfolding Evm.outcome read_evm_answer
  read_evm_answer-IsFetched (not_built e) = ground (arith, every_char-nil printable)
  read_evm_answer-IsFetched (not_answered e) = ground (arith, every_char-nil printable)
  read_evm_answer-IsFetched (answered status body) =
      ground (arith, every_char-nil printable, read_body_prefix-every_char H body)

  pub probe_evm_endpoint-IsFetched :
      (s : H.State) → IsFetched 200 (Evm.outcome (probe_evm_endpoint H D ua chain ep s).0)
  unfolding Evm.outcome probe_evm_endpoint
  probe_evm_endpoint-IsFetched s =
      let read = read_evm_answer-IsFetched (client_send H ua (evm_request H D ua chain ep) s).0 in
      record {
        throttled_iff = read.throttled_iff;
        throttled_err = read.throttled_err;
        no_connection = read.no_connection;
        fetched = read.fetched;
        one_line = read.one_line;
      }
