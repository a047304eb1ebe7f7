-- ===== src/Sentinel/Flows/Endpoint/Preflight.antt =====
-- The answer of `preflight` (cmd/sentinel/prflow.go), against the results of its probes.
use chain_registry_sentinel.Base.{
  ◌≡◌, refl, String, Bool, true, ◌&&◌, ◌||◌, List, [], ◌∷◌, arith, any, str_eq, eq_iff,
  if◌then◌else◌,
}
use chain_registry_sentinel.Base.Map.{Dict, lookup, insert, or_zero, lookup-insert}
use chain_registry_sentinel.Checks.Result.{Result}
use chain_registry_sentinel.State.{endpoint_key}
use chain_registry_sentinel.Sentinel.Jobs.{Job}
use chain_registry_sentinel.Sentinel.Streaks.{is_measured}
use chain_registry_sentinel.Sentinel.Flows.Endpoint.{
  FlaggedEndpoint, preflight_jobs, preflight_passed, probe_again, preflight, has_passed,
}

-- A measurement that passed, of the endpoint of the chain with the key.
abbrev pub is_rescue : String → String → Result → Bool
is_rescue name key r =
    is_measured r
    && (r.passed && (str_eq r.chain name && str_eq (endpoint_key r.check r.endpoint) key))

-- One round of the loop.
abbrev note : Result → Dict (Dict Bool) → Dict (Dict Bool)
note r passed =
    let known = or_zero [] (lookup r.chain passed) in
    let known' = if r.passed then insert (endpoint_key r.check r.endpoint) true known else known in
    if is_measured r then insert r.chain known' passed else passed

note-has_passed :
    (name key : String) (r : Result) (passed : Dict (Dict Bool))
    → has_passed (note r passed) name key ≡ (is_rescue name key r || has_passed passed name key)
unfolding has_passed
note-has_passed name key r passed =
    let known = or_zero [] (lookup r.chain passed) in
    let own = endpoint_key r.check r.endpoint in
    ground (
      arith,
      eq_iff r.chain name,
      lookup-insert own key true known,
      lookup-insert r.chain name known passed,
      lookup-insert r.chain name (insert own true known) passed,
    )

preflight_passed-has_passed :
    (name key : String) (rs : List Result) (passed : Dict (Dict Bool))
    → has_passed (preflight_passed rs passed) name key
      ≡ (any (is_rescue name key) rs || has_passed passed name key)
unfolding preflight_passed
preflight_passed-has_passed name key [] passed = refl
preflight_passed-has_passed name key (r ∷ rs) passed =
    rw (preflight_passed-has_passed name key rs (note r passed), note-has_passed name key r passed)
      (ground arith)

probe_again-has_passed :
    (run_workers : List Job → List Result) (name key : String) (jobs : List Job)
    → run_workers [] ≡ []
    → has_passed (probe_again run_workers jobs) name key
      ≡ any (is_rescue name key) (run_workers jobs)
unfolding has_passed lookup probe_again
probe_again-has_passed run_workers name key [] nothing = rw nothing refl
probe_again-has_passed run_workers name key (j ∷ js) nothing =
    rw (preflight_passed-has_passed name key (run_workers (j ∷ js)) []) (ground arith)

-- The preflight takes a key of a chain for alive exactly when one of its probes, of the jobs that it
-- runs again, is a measurement of that endpoint that passed.
pub preflight-has_passed :
    (run_workers : List Job → List Result) (flagged : Dict (List FlaggedEndpoint)) (jobs : List Job)
    (name key : String)
    → run_workers [] ≡ []
    → has_passed (preflight run_workers flagged jobs) name key
      ≡ any (is_rescue name key) (run_workers (preflight_jobs flagged jobs))
unfolding preflight
preflight-has_passed run_workers flagged jobs name key nothing =
    probe_again-has_passed run_workers name key (preflight_jobs flagged jobs) nothing
