-- ===== src/State.antt =====
-- internal/state/state.go: the state of a chain, one entry per endpoint, and its two operations.
pub mod Files
pub mod History
use chain_registry_sentinel.Base.{ℕ, String, Bool, false, [], if◌then◌else◌}
use chain_registry_sentinel.Base.Int.{ℤ, pos, increment, is_zero}
use chain_registry_sentinel.Base.Map.{Dict, lookup, insert, filter_keys, or_zero, is_some}
use chain_registry_sentinel.Base.Text.{◌+s◌}
use chain_registry_sentinel.Base.Time.{Time, zero_time}
use chain_registry_sentinel.Checks.FailureClass.{FailureClass, class_none}
use chain_registry_sentinel.Checks.Result.{Result}

-- `EndpointKey`.
unfoldable pub endpoint_key : String → String → String
endpoint_key check address = check +s "|" +s address

pub record EndpointState : Type 0 where
  pub consecutive_failures : ℤ
  pub last_passed : Bool
  pub last_evidence : String
  pub first_evidence : String
  pub last_checked : Time
  pub first_failure_time : Time
  pub provider : String
  pub failure_class : FailureClass
  pub http_status : ℕ

-- `EndpointState{}`, which a missing key reads as.
abbrev pub zero_endpoint : EndpointState
zero_endpoint = record {
  consecutive_failures = pos 0;
  last_passed = false;
  last_evidence = "";
  first_evidence = "";
  last_checked = zero_time;
  first_failure_time = zero_time;
  provider = "";
  failure_class = class_none;
  http_status = 0;
}

pub record ChainState : Type 0 where
  pub version : ℤ
  pub chain_id : String
  pub updated_at : Time
  pub last_pr_opened_at : Time
  pub last_hash_pr_opened_at : Time
  pub endpoints : Dict EndpointState
  pub chain_dead_streak : ℤ
  pub chain_dead_first_time : Time
  pub last_status_pr_opened_at : Time

-- `ChainState{}`, which a missing chain reads as.
abbrev pub zero_chain : ChainState
zero_chain = record {
  version = pos 0;
  chain_id = "";
  updated_at = zero_time;
  last_pr_opened_at = zero_time;
  last_hash_pr_opened_at = zero_time;
  endpoints = [];
  chain_dead_streak = pos 0;
  chain_dead_first_time = zero_time;
  last_status_pr_opened_at = zero_time;
}

-- What `Update` does to the entry of the result's key.
unfoldable pub update_entry : Result → Time → EndpointState → EndpointState
update_entry r now es =
    if r.passed
    then record es {
      last_checked = now;
      last_passed = r.passed;
      provider = r.provider;
      consecutive_failures = pos 0;
      first_failure_time = zero_time;
      first_evidence = "";
      last_evidence = "";
      failure_class = class_none;
      http_status = 0;
    }
    else record es {
      last_checked = now;
      last_passed = r.passed;
      last_evidence = r.evidence;
      provider = r.provider;
      failure_class = r.failure_class;
      http_status = r.http_status;
      first_failure_time = if is_zero es.consecutive_failures then now else es.first_failure_time;
      first_evidence = if is_zero es.consecutive_failures then r.evidence else es.first_evidence;
      consecutive_failures = increment es.consecutive_failures;
    }

-- `ChainState.Update`.
unfoldable pub update : Result → Time → ChainState → ChainState
unfolding update_entry
update r now cs =
    let key = endpoint_key r.check r.endpoint in
    let es = or_zero zero_endpoint (lookup key cs.endpoints) in
    record cs { endpoints = insert key (update_entry r now es) cs.endpoints }

-- `ChainState.Prune`; a set is a map to the unit type, and a nil set has no key.
unfoldable pub prune : Dict (Unit {0}) → ChainState → ChainState
prune active_keys cs = record cs {
  endpoints = filter_keys (λ key. is_some (lookup key active_keys)) cs.endpoints;
}
