-- ===== src/Sentinel/Flows/Endpoint.antt =====
-- cmd/sentinel/prflow.go: the endpoint-removal flow.
pub mod Preflight
use chain_registry_sentinel.Base.{
  String, Bool, true, false, ◌||◌, not, Option, none, some, List, [], ◌∷◌, keep, str_eq,
  if◌then◌else◌,
}
use chain_registry_sentinel.Base.Int.{ℤ, pos, leb_ℤ}
use chain_registry_sentinel.Base.Map.{Dict, lookup, insert, filter_keys, or_zero, is_some}
use chain_registry_sentinel.Base.Text.{cut, has_suffix}
use chain_registry_sentinel.Base.Time.{Time, zero_time}
use chain_registry_sentinel.Checks.Result.{Result}
use chain_registry_sentinel.State.{EndpointState, ChainState, endpoint_key, zero_endpoint}
use chain_registry_sentinel.Sentinel.Jobs.{Job, liveness_key}
use chain_registry_sentinel.Sentinel.Streaks.{StateMap, is_measured}

pub record FlaggedEndpoint : Type 0 where
  pub check : String
  pub address : String
  pub consecutive_failures : ℤ
  pub first_failure_time : Time
  pub first_evidence : String
  pub last_evidence : String

-- The key `state.EndpointKey(ep.Check, ep.Address)`.
abbrev pub flagged_key : FlaggedEndpoint → String
flagged_key ep = endpoint_key ep.check ep.address

-- The endpoint that a key, cut at its bar, and its entry stand for; none for a chain-ID check.
abbrev pub entry_of : EndpointState → Option (String × String) → Option FlaggedEndpoint
entry_of ep none = none
entry_of ep (some (check, address)) =
    if has_suffix check "_chain_id"
    then none
    else some (record {
      check = check;
      address = address;
      consecutive_failures = ep.consecutive_failures;
      first_failure_time = ep.first_failure_time;
      first_evidence = ep.first_evidence;
      last_evidence = ep.last_evidence;
    })

unfoldable pub flagged_entry : String → EndpointState → Option FlaggedEndpoint
flagged_entry key ep = entry_of ep (cut key b'|')

abbrev pub cons_some {ℓ} : {A : Type ℓ} → Option A → List A → List A
cons_some none xs = xs
cons_some (some x) xs = x ∷ xs

-- The inner loop of `collectFlagged`.
unfoldable pub flagged_of : ℤ → Dict EndpointState → List FlaggedEndpoint
unfolding flagged_entry
flagged_of threshold [] = []
flagged_of threshold ((key, ep) ∷ es) =
    let rest = flagged_of threshold es in
    if leb_ℤ threshold ep.consecutive_failures then cons_some (flagged_entry key ep) rest else rest

-- A chain with nothing flagged gets no key.
abbrev pub cons_flagged :
    String → List FlaggedEndpoint → Dict (List FlaggedEndpoint) → Dict (List FlaggedEndpoint)
cons_flagged name [] rest = rest
cons_flagged name (ep ∷ eps) rest = (name, ep ∷ eps) ∷ rest

unfoldable pub collect_flagged : StateMap → ℤ → Dict (List FlaggedEndpoint)
unfolding flagged_of
collect_flagged [] threshold = []
collect_flagged ((name, cs) ∷ m) threshold =
    cons_flagged name (flagged_of threshold cs.endpoints) (collect_flagged m threshold)

-- `delete(flagged, name)` for every name of `exclude`.
unfoldable pub exclude_chains :
    Dict Bool → Dict (List FlaggedEndpoint) → Dict (List FlaggedEndpoint)
exclude_chains exclude = filter_keys (λ name. not (is_some (lookup name exclude)))

abbrev has_key : String → List FlaggedEndpoint → Bool
has_key key [] = false
has_key key (ep ∷ eps) = str_eq (flagged_key ep) key || has_key key eps

-- The jobs that `preflight` probes again.
unfoldable pub preflight_jobs : Dict (List FlaggedEndpoint) → List Job → List Job
unfolding liveness_key
preflight_jobs flagged =
    keep (λ (j : Job). has_key (liveness_key j) (or_zero [] (lookup j.chain.name flagged)))

-- The last loop of `preflight`: the keys that passed, per chain.
unfoldable pub preflight_passed : List Result → Dict (Dict Bool) → Dict (Dict Bool)
unfolding is_measured
preflight_passed [] passed = passed
preflight_passed (r ∷ rs) passed =
    let known = or_zero [] (lookup r.chain passed) in
    let known' = if r.passed then insert (endpoint_key r.check r.endpoint) true known else known in
    preflight_passed rs (if is_measured r then insert r.chain known' passed else passed)

-- `preflight`, where `run_workers` stands for the probes of the jobs by `runWorkers`.
abbrev pub probe_again : (List Job → List Result) → List Job → Dict (Dict Bool)
unfolding preflight_passed
probe_again run_workers [] = []
probe_again run_workers (j ∷ js) = preflight_passed (run_workers (j ∷ js)) []

unfoldable pub preflight :
    (List Job → List Result) → Dict (List FlaggedEndpoint) → List Job → Dict (Dict Bool)
unfolding preflight_jobs preflight_passed
preflight run_workers flagged jobs = probe_again run_workers (preflight_jobs flagged jobs)

-- `passed[chain][key]`.
unfoldable pub has_passed : Dict (Dict Bool) → String → String → Bool
has_passed passed name key = or_zero false (lookup key (or_zero [] (lookup name passed)))

-- The entry that `applyPreflightResults` writes for a pair that passed.
unfoldable pub rescue_entry : Time → EndpointState → EndpointState
rescue_entry now es = record es {
  consecutive_failures = pos 0;
  last_passed = true;
  first_failure_time = zero_time;
  first_evidence = "";
  last_evidence = "";
  last_checked = now;
}

unfoldable pub rescue_all :
    Dict (Dict Bool)
    → String
    → Time
    → List FlaggedEndpoint
    → Dict EndpointState
    → Dict EndpointState
unfolding has_passed rescue_entry
rescue_all passed name now [] es = es
rescue_all passed name now (ep ∷ eps) es =
    let key = flagged_key ep in
    let es' = insert key (rescue_entry now (or_zero zero_endpoint (lookup key es))) es in
    rescue_all passed name now eps (if has_passed passed name key then es' else es)

abbrev pub is_empty {ℓ} : {A : Type ℓ} → List A → Bool
is_empty [] = true
is_empty (_ ∷ _) = false

-- A flagged chain has a state, since `collectFlagged` read it there.
abbrev pub rescue_state :
    Dict (Dict Bool)
    → Time
    → String
    → List FlaggedEndpoint
    → StateMap
    → Option ChainState
    → StateMap
unfolding rescue_all
rescue_state passed now name eps m none = m
rescue_state passed now name eps m (some cs) =
    if is_empty (or_zero [] (lookup name passed))
    then m
    else insert name (record cs { endpoints = rescue_all passed name now eps cs.endpoints }) m

unfoldable pub rescue_chain :
    Dict (Dict Bool) → Time → String → List FlaggedEndpoint → StateMap → StateMap
unfolding rescue_all
rescue_chain passed now name eps m = rescue_state passed now name eps m (lookup name m)

unfoldable pub apply_preflight_results :
    StateMap → Dict (List FlaggedEndpoint) → Dict (Dict Bool) → Time → StateMap
unfolding rescue_chain
apply_preflight_results m [] passed now = m
apply_preflight_results m ((name, eps) ∷ flagged) passed now =
    apply_preflight_results (rescue_chain passed now name eps m) flagged passed now

-- `stillDead` of `openPRs`.
unfoldable pub still_dead : Dict (Dict Bool) → String → List FlaggedEndpoint → List FlaggedEndpoint
unfolding has_passed
still_dead passed name = keep (λ ep. not (has_passed passed name (flagged_key ep)))
