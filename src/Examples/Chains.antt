-- ===== src/Examples/Chains.antt =====
-- The jobs of a chain, the verdict of a probe, and the class of an error.
use chain_registry_sentinel.Base.{
  ◌≡◌, ◌≢◌, ◌↔◌, ◌⊎◌, ◌≤◌, refl, true, false, Option, some, none, [], ◌∷◌, String, ℕ, Memᴰ, any,
}
use chain_registry_sentinel.Base.Int.{ℤ, pos}
use chain_registry_sentinel.Checks.Error.{GoError}
use chain_registry_sentinel.Checks.FailureClass.{class_none, dns_nx_domain}
use chain_registry_sentinel.Checks.Classify.{classify, classify_http_status}
use chain_registry_sentinel.Checks.Rpc.{EndpointProbe}
use chain_registry_sentinel.Sentinel.Jobs.{
  Job, type_rest, declared, chain_jobs, build_active_liveness_keys,
}
use chain_registry_sentinel.Sentinel.Jobs.Active.{
  is_active, keeps_alive, build_active_liveness_keys-is_active,
}
use chain_registry_sentinel.Sentinel.Jobs.Distinct.{IsUnrepeated, chain_jobs-IsUnrepeated}
use chain_registry_sentinel.Sentinel.Jobs.Declared.{IsDeclared, chain_jobs-IsDeclared}
use chain_registry_sentinel.Sentinel.Jobs.Covered.{chain_jobs-covers}
use chain_registry_sentinel.Sentinel.Probe.{Results, rpc, evaluate}
use chain_registry_sentinel.Sentinel.Probe.Verdicts.{IsJudged, evaluate-IsJudged}
use chain_registry_sentinel.Examples.Data.{osmosis, rpc_a, rest_a, rest_key}

abbrev rest_job : Job
rest_job = record { chain = osmosis; endpoint = rest_a; endpoint_type = type_rest; order = 1 }

chain_jobs-IsUnrepeated_example : IsUnrepeated (chain_jobs osmosis)
chain_jobs-IsUnrepeated_example = chain_jobs-IsUnrepeated osmosis

rest_job_listed : Memᴰ rest_job (chain_jobs osmosis)
unfolding chain_jobs chain_registry_sentinel.Base.Map.lookup chain_registry_sentinel.Base.Map.insert
rest_job_listed = Memᴰ.tail (Memᴰ.head refl)

chain_jobs-IsDeclared_example : IsDeclared osmosis (declared osmosis) rest_job
chain_jobs-IsDeclared_example = chain_jobs-IsDeclared osmosis rest_job_listed

chain_jobs-covers_example :
    (j : Job) × Memᴰ j (chain_jobs osmosis)
    × (j.endpoint_type ≡ type_rest)
    × (j.endpoint.address ≡ rest_a.address)
chain_jobs-covers_example = chain_jobs-covers osmosis type_rest refl (Memᴰ.head refl)

build_active_liveness_keys-is_active_example :
    is_active (build_active_liveness_keys (rest_job ∷ [])) "osmosis" rest_key
    ≡ any (keeps_alive "osmosis" rest_key) (rest_job ∷ [])
build_active_liveness_keys-is_active_example =
    build_active_liveness_keys-is_active "osmosis" rest_key (rest_job ∷ [])

-- An error of the resolver.
abbrev no_such_host : GoError
no_such_host = record {
  message = "lookup a.zone: no such host";
  dns_error = some true;
  econnrefused = false;
  econnreset = false;
  ehostunreach = false;
  enetunreach = false;
  hostname_error = false;
  unknown_authority = false;
  certificate_invalid = none;
  certificate_verification = false;
  net_error = some false;
  grpc_status = none;
}

-- Service Unavailable.
abbrev code : ℕ
code = 503

-- A probe of the RPC that no host answered.
abbrev unreachable : EndpointProbe
unreachable = record {
  chain = osmosis;
  endpoint = rpc_a;
  status = none;
  fetch_err = some no_such_host;
  net_err = true;
  rate_limited = false;
  status_code = 0;
  body = "";
  latency = pos 7;
}

-- No text is read as a number here, since no EVM chain is probed.
abbrev parse_none : String → Option ℤ
parse_none text = none

abbrev no_digits : ℤ → String
no_digits n = ""

abbrev judged : Results
judged = record {
  liveness = record {
    chain = "osmosis";
    chain_id = "osmosis-1";
    chain_type = "cosmos";
    check = "rpc_liveness";
    endpoint = "https://rpc.a.zone";
    provider = "A";
    passed = false;
    skipped = false;
    conn_failed = true;
    evidence = "lookup a.zone: no such host";
    failure_class = dns_nx_domain;
    http_status = 0;
    latency = pos 7;
    catching_up = false;
    tx_index = "";
    latest_block_time = pos 0;
    endpoint_order = 0;
    method_restricted = false;
  };
  chain_id = record {
    chain = "osmosis";
    chain_id = "osmosis-1";
    chain_type = "cosmos";
    check = "rpc_chain_id";
    endpoint = "https://rpc.a.zone";
    provider = "A";
    passed = false;
    skipped = true;
    conn_failed = false;
    evidence = "";
    failure_class = class_none;
    http_status = 0;
    latency = pos 0;
    catching_up = false;
    tx_index = "";
    latest_block_time = pos 0;
    endpoint_order = 0;
    method_restricted = false;
  };
}

unreachable_judged : evaluate parse_none no_digits (rpc unreachable) ≡ some judged
unfolding evaluate classify chain_registry_sentinel.Checks.Classify.provider_message
    chain_registry_sentinel.Base.Text.contains_lower
    chain_registry_sentinel.Checks.Classify.classify_dns
unreachable_judged = refl

evaluate-IsJudged_example : IsJudged (rpc unreachable) judged
evaluate-IsJudged_example =
    evaluate-IsJudged parse_none no_digits (rpc unreachable) unreachable_judged
