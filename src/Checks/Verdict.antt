-- ===== src/Checks/Verdict.antt =====
-- `Classify` and `applyLiveness` of internal/checks.
use chain_registry_sentinel.Base.{ℕ, ◌≤◌, ◌≡◌, ◌≢◌, ◌↔◌, ◌⊎◌, String, true, false, some, arith}
use chain_registry_sentinel.Registry.{Chain, Endpoint}
use chain_registry_sentinel.Checks.Error.{GoError}
use chain_registry_sentinel.Checks.FailureClass.{
  FailureClass, class_none, is_structural, ◌or_class◌,
}
use chain_registry_sentinel.Checks.Classify.{
  classify, classify_http_status, provider_message, classify_dns, classify_syscall, classify_tls,
  classify_timeout, classify_payload, classify_grpc,
}
use chain_registry_sentinel.Checks.Result.{Result, LivenessOutcome, new_result, apply_liveness}

or_class-ne-none : (c d : FailureClass) → d ≢ class_none → (c or_class d) ≢ class_none
or_class-ne-none class_none d h = h
or_class-ne-none _ d h = λ e. cc

-- Every error gets a class.
pub classify-ne-none :
    (err : GoError) (status_code : ℕ) (body : String)
    → classify (some err) status_code body ≢ class_none
unfolding classify
classify-ne-none err status_code body = or_class-ne-none (provider_message body err.message) _ (
    or_class-ne-none (classify_dns err err.message) _ (
      or_class-ne-none (classify_syscall err err.message) _ (
        or_class-ne-none (classify_tls err err.message) _ (
          or_class-ne-none (classify_timeout err err.message) _ (
            or_class-ne-none (classify_http_status status_code) _ (
              or_class-ne-none (classify_payload err.message) _
                (or_class-ne-none (classify_grpc err.message) _ (λ e. cc))))))))

-- An HTTP status is structural exactly when it is 404, one of Cloudflare's origin errors, or one
-- of the three answers of a gateway without a backend.
pub classify_http_status-structural_iff :
    (code : ℕ)
    → (is_structural (classify_http_status code) ≡ true)
      ↔ ((code ≡ 404) ⊎ (502 ≤ code) × (code ≤ 504) ⊎ (521 ≤ code) × (code ≤ 526) ⊎ (code ≡ 530))
unfolding is_structural classify_http_status
classify_http_status-structural_iff code = (ground arith, ground arith)

-- A result is a pass, a skip or a failure with a class, and only a failure has a class and is
-- counted against the endpoint.
pub record IsVerdict (r : Result) : Type 0 where
  pub pass_or_skip : r.passed ≡ true → r.skipped ≡ false
  pub pass_clean : r.passed ≡ true → r.failure_class ≡ class_none
  pub pass_silent : r.passed ≡ true → r.evidence ≡ ""
  pub failure_classified : r.passed ≡ false → r.skipped ≡ false → r.failure_class ≢ class_none

-- The result is about that entry of the registry.
pub record IsAbout (chain : Chain) (ep : Endpoint) (check : String) (r : Result) : Type 0 where
  pub same_chain : r.chain ≡ chain.name
  pub same_chain_id : r.chain_id ≡ chain.chain_id
  pub same_chain_type : r.chain_type ≡ chain.chain_type
  pub same_endpoint : r.endpoint ≡ ep.address
  pub same_provider : r.provider ≡ ep.provider
  pub same_check : r.check ≡ check

module _ (chain : Chain) (ep : Endpoint) (check : String) where
  pub liveness-IsVerdict :
      (o : LivenessOutcome) → IsVerdict (apply_liveness (new_result chain ep check) o)
  unfolding apply_liveness new_result
  liveness-IsVerdict o = grind (arith, classify-ne-none)

  pub liveness-IsAbout :
      (o : LivenessOutcome) → IsAbout chain ep check (apply_liveness (new_result chain ep check) o)
  unfolding apply_liveness new_result
  liveness-IsAbout o = ground arith
