-- ===== src/Examples/Data.antt =====
-- A chain with two endpoints, a passed and a failed result of it, and its state behind one failure.
use chain_registry_sentinel.Base.{true, false, [], ◌∷◌, String}
use chain_registry_sentinel.Base.Int.{pos}
use chain_registry_sentinel.Base.Map.{Dict}
use chain_registry_sentinel.Base.Time.{Time, zero_time}
use chain_registry_sentinel.Registry.{Chain, Endpoint}
use chain_registry_sentinel.Checks.FailureClass.{class_none, dns_nx_domain}
use chain_registry_sentinel.Checks.Result.{Result}
use chain_registry_sentinel.State.{EndpointState, ChainState, zero_chain}
use chain_registry_sentinel.Sentinel.Streaks.{StateMap}

abbrev pub rpc_a : Endpoint
rpc_a = record { address = "https://rpc.a.zone"; provider = "A" }

abbrev pub rest_a : Endpoint
rest_a = record { address = "https://rest.a.zone"; provider = "A" }

abbrev pub osmosis : Chain
osmosis = record {
  name = "osmosis";
  chain_id = "osmosis-1";
  chain_type = "cosmos";
  status = "live";
  rpcs = rpc_a ∷ [];
  rest_endpoints = rest_a ∷ [];
  grpc_web_endpoints = [];
  grpc_endpoints = [];
  evm_endpoints = [];
  wss_endpoints = [];
}

abbrev pub now : Time
now = pos 1000000

-- A synced RPC with a fresh block.
abbrev pub passed_result : Result
passed_result = record {
  chain = "osmosis";
  chain_id = "osmosis-1";
  chain_type = "cosmos";
  check = "rpc_liveness";
  endpoint = "https://rpc.a.zone";
  provider = "A";
  passed = true;
  skipped = false;
  conn_failed = false;
  evidence = "";
  failure_class = class_none;
  http_status = 200;
  latency = pos 5;
  catching_up = false;
  tx_index = "on";
  latest_block_time = pos 999999;
  endpoint_order = 1;
  method_restricted = false;
}

abbrev pub failed_result : Result
failed_result = record passed_result {
  check = "rest_liveness";
  endpoint = "https://rest.a.zone";
  passed = false;
  evidence = "no such host";
  failure_class = dns_nx_domain;
  http_status = 0;
  latest_block_time = zero_time;
}

abbrev pub rest_key : String
rest_key = "rest_liveness|https://rest.a.zone"

abbrev pub failed_entry : EndpointState
failed_entry = record {
  consecutive_failures = pos 1;
  last_passed = false;
  last_evidence = "no such host";
  first_evidence = "no such host";
  last_checked = pos 1000000;
  first_failure_time = pos 1000000;
  provider = "A";
  failure_class = dns_nx_domain;
  http_status = 0;
}

abbrev pub failing_chain : ChainState
failing_chain = record zero_chain { endpoints = (rest_key, failed_entry) ∷ [] }

abbrev pub failing_state : StateMap
failing_state = ("osmosis", failing_chain) ∷ []

abbrev pub new_state : StateMap
new_state = ("osmosis", zero_chain) ∷ []

abbrev pub active : Dict (Dict (Unit {0}))
active = ("osmosis", (rest_key, tt) ∷ []) ∷ []
