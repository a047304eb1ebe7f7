-- ===== src/Checks/Evm.antt =====
-- internal/checks/evm.go: the EVM probe's outcome and the two EVM checks.
use chain_registry_sentinel.Base.{ℕ, String, Bool, true, Option, none, some, str_eq, if◌then◌else◌}
use chain_registry_sentinel.Base.Int.{ℤ, eq_ℤ}
use chain_registry_sentinel.Base.Text.{◌+s◌}
use chain_registry_sentinel.Base.Time.{Duration}
use chain_registry_sentinel.Registry.{Chain, Endpoint}
use chain_registry_sentinel.Checks.Error.{GoError}
use chain_registry_sentinel.Checks.FailureClass.{chain_id_mismatch}
use chain_registry_sentinel.Checks.Result.{
  Result, LivenessOutcome, new_result, apply_liveness, skip,
}

pub record EvmProbe : Type 0 where
  pub chain : Chain
  pub endpoint : Endpoint
  -- The parsed chain ID; 0 if the fetch failed.
  pub chain_id : ℤ
  pub fetch_err : Option GoError
  pub net_err : Bool
  pub rate_limited : Bool
  pub status_code : ℕ
  pub body : String
  pub latency : Duration

unfoldable pub outcome : EvmProbe → LivenessOutcome
outcome p = record {
  fetch_err = p.fetch_err;
  net_err = p.net_err;
  rate_limited = p.rate_limited;
  status_code = p.status_code;
  body = p.body;
  latency = p.latency;
}

unfoldable pub liveness : EvmProbe → Result
unfolding new_result apply_liveness outcome
liveness probe =
    apply_liveness (new_result probe.chain probe.endpoint "evm_liveness") (outcome probe)

-- `strconv.ParseInt(s, 10, 64)` and the decimal text of a 64-bit integer, which `fmt` prints.
module _ (parse_int : String → Option ℤ) (decimal : ℤ → String) where
  compare_expected : Option ℤ → ℤ → Result → Result
  compare_expected none got r = skip r
  compare_expected (some expected) got r =
      if eq_ℤ got expected then record r { passed = true } else record r {
        failure_class = chain_id_mismatch;
        evidence = "got=" +s decimal got +s " want=" +s decimal expected;
      }

  unfoldable pub chain_id : EvmProbe → Result
  unfolding compare_expected new_result
  chain_id probe =
      let r = new_result probe.chain probe.endpoint "evm_chain_id" in
      elim probe.fetch_err [
        | some err ↦ skip r
        | none ↦
            if str_eq probe.chain.chain_type "eip155"
            then compare_expected (parse_int probe.chain.chain_id) probe.chain_id r
            else skip r
      ]
