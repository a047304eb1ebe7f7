-- ===== src/Checks/Result.antt =====
-- internal/checks/check.go: the result of a check, and the liveness verdict that five checks share.
use chain_registry_sentinel.Base.{
  ℕ, String, Bool, true, false, Option, none, some, str_eq, if◌then◌else◌,
}
use chain_registry_sentinel.Base.Int.{pos}
use chain_registry_sentinel.Base.Text.{◌+s◌}
use chain_registry_sentinel.Base.Time.{Time, Duration, zero_time}
use chain_registry_sentinel.Registry.{Chain, Endpoint}
use chain_registry_sentinel.Checks.Error.{GoError}
use chain_registry_sentinel.Checks.FailureClass.{
  FailureClass, class_none, http_429, chain_id_mismatch,
}
use chain_registry_sentinel.Checks.Classify.{classify}

pub record Result : Type 0 where
  pub chain : String
  pub chain_id : String
  pub chain_type : String
  pub check : String
  pub endpoint : String
  pub provider : String
  pub passed : Bool
  pub skipped : Bool
  pub conn_failed : Bool
  pub evidence : String
  pub failure_class : FailureClass
  -- 0 when no HTTP response arrived.
  pub http_status : ℕ
  pub latency : Duration
  pub catching_up : Bool
  pub tx_index : String
  pub latest_block_time : Time
  pub endpoint_order : ℕ
  pub method_restricted : Bool

-- `newResult`: the fields of the entry under test, and zero values.
unfoldable pub new_result : Chain → Endpoint → String → Result
new_result chain ep check = record {
  chain = chain.name;
  chain_id = chain.chain_id;
  chain_type = chain.chain_type;
  check = check;
  endpoint = ep.address;
  provider = ep.provider;
  passed = false;
  skipped = false;
  conn_failed = false;
  evidence = "";
  failure_class = class_none;
  http_status = 0;
  latency = pos 0;
  catching_up = false;
  tx_index = "";
  latest_block_time = zero_time;
  endpoint_order = 0;
  method_restricted = false;
}

pub record LivenessOutcome : Type 0 where
  pub fetch_err : Option GoError
  pub net_err : Bool
  pub rate_limited : Bool
  pub status_code : ℕ
  pub body : String
  pub latency : Duration

unfoldable pub err_text : Option GoError → String
err_text none = ""
err_text (some err) = err.message

-- The cases of the `switch` of `applyLiveness`, by what it tests first.
apply_verdict : Bool → Option GoError → LivenessOutcome → Result → Result
unfolding err_text
apply_verdict true err o r = record r {
  skipped = true;
  failure_class = http_429;
  evidence = err_text err;
}
apply_verdict false (some err) o r = record r {
  conn_failed = o.net_err;
  failure_class = classify (some err) o.status_code o.body;
  evidence = if str_eq o.body "" then err.message else err.message +s ": " +s o.body;
}
apply_verdict false none o r = record r { passed = true }

unfoldable pub apply_liveness : Result → LivenessOutcome → Result
unfolding apply_verdict
apply_liveness r o =
    apply_verdict o.rate_limited o.fetch_err o
      (record r { http_status = o.status_code; latency = o.latency })

-- `r.Skipped = true; return r`.
abbrev pub skip : Result → Result
skip r = record r { skipped = true }

-- The comparison at the end of the chain-ID checks, on the texts of the two chain IDs.
unfoldable pub compare_chain_id : String → String → Result → Result
compare_chain_id got want r = if str_eq got want then record r { passed = true } else record r {
  failure_class = chain_id_mismatch;
  evidence = "got=" +s got +s " want=" +s want;
}
