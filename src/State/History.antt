-- ===== src/State/History.antt =====
-- The streaks of internal/state/state.go, against the history of results.
use text.Mathlib.TextLemmas.{append_assoc, cons-append, nil-append}
use chain_registry_sentinel.Base.{
  ◌≤◌, ◌<◌, ◌≡◌, refl, String, true, false, List, [], ◌∷◌, arith, length, str_eq, eq_iff,
  Bool-cases, inl, inr, if◌then◌else◌, some,
}
use chain_registry_sentinel.Base.Int.{pos, max_int, increment-pos}
use chain_registry_sentinel.Base.Map.{lookup, or_zero, lookup-insert}
use chain_registry_sentinel.Base.Text.{cut, has_char, cut-append}
use chain_registry_sentinel.Base.Time.{Time, zero_time}
use chain_registry_sentinel.Checks.Result.{Result}
use chain_registry_sentinel.State.{
  endpoint_key, EndpointState, ChainState, zero_endpoint, update_entry, update,
}

-- A result and the time of its run.
abbrev pub Observation : Type 0
Observation = Result × Time

-- The entry behind a history, newest first.
pub after_runs : List Observation → EndpointState
after_runs [] = zero_endpoint
after_runs ((r, now) ∷ older) = update_entry r now (after_runs older)

-- The failures since the last pass.
pub failing : List Observation → List Observation
failing [] = []
failing ((r, now) ∷ older) = let rest = failing older in if r.passed then [] else (r, now) ∷ rest

-- The time and the evidence of the oldest observation.
pub oldest_time : List Observation → Time
oldest_time [] = zero_time
oldest_time ((r, now) ∷ []) = now
oldest_time (_ ∷ o ∷ older) = oldest_time (o ∷ older)

pub oldest_evidence : List Observation → String
oldest_evidence [] = ""
oldest_evidence ((r, now) ∷ []) = r.evidence
oldest_evidence (_ ∷ o ∷ older) = oldest_evidence (o ∷ older)

-- The state of a chain behind a history of updates, newest first, from a chain with no entry.
pub replay : ChainState → List Observation → ChainState
replay start [] = start
replay start ((r, now) ∷ older) = update r now (replay start older)

-- The observations of one key.
pub for_key : String → List Observation → List Observation
for_key k [] = []
for_key k ((r, now) ∷ older) =
    let rest = for_key k older in
    if str_eq (endpoint_key r.check r.endpoint) k then (r, now) ∷ rest else rest

length-failing : (h : List Observation) → length (failing h) ≤ length h
unfolding failing
length-failing [] = omega arith
length-failing ((r, now) ∷ older) = ground (arith, length-failing older)

length-for_key : (k : String) (h : List Observation) → length (for_key k h) ≤ length h
unfolding for_key
length-for_key k [] = omega arith
length-for_key k ((r, now) ∷ older) = ground (arith, length-for_key k older)

-- The entry of a failing streak holds its length, its oldest time and its oldest evidence.
pub record Holds (es : EndpointState) (streak : List Observation) : Type 0 where
  pub count : es.consecutive_failures ≡ pos (length streak)
  pub since : es.first_failure_time ≡ oldest_time streak
  pub cause : es.first_evidence ≡ oldest_evidence streak

Holds-cons :
    (es : EndpointState) (streak : List Observation) (r : Result) (now : Time)
    → length streak < max_int
    → Holds es streak
    → r.passed ≡ false
    → Holds (update_entry r now es) ((r, now) ∷ streak)
unfolding update_entry oldest_time oldest_evidence
Holds-cons es [] r now small h fail = ground (arith, increment-pos 0)
Holds-cons es (o ∷ streak) r now small h fail = ground (arith, increment-pos (length (o ∷ streak)))

Holds-passed :
    (es : EndpointState) (r : Result) (now : Time)
    → r.passed ≡ true
    → Holds (update_entry r now es) []
unfolding update_entry oldest_time oldest_evidence
Holds-passed es r now pass = ground arith

after_runs-Holds : (h : List Observation) → length h ≤ max_int → Holds (after_runs h) (failing h)
unfolding after_runs failing oldest_time oldest_evidence
after_runs-Holds [] small = record { count = refl; since = refl; cause = refl }
after_runs-Holds ((r, now) ∷ older) small = elim (Bool-cases r.passed) [
  | inl pass ↦ simp pass (Holds-passed (after_runs older) r now pass)
  | inr fail ↦ simp fail (
      Holds-cons (after_runs older) (failing older) r now (omega (arith, length-failing older))
        (after_runs-Holds older (omega arith)) fail)
]

lookup-update :
    (r : Result) (now : Time) (cs : ChainState) (k : String)
    → or_zero zero_endpoint (lookup k (update r now cs).endpoints) ≡ (
        let before = or_zero zero_endpoint (lookup k cs.endpoints) in
        if str_eq (endpoint_key r.check r.endpoint) k then update_entry r now before else before)
unfolding update
lookup-update r now cs k =
    let key = endpoint_key r.check r.endpoint in
    let before = or_zero zero_endpoint (lookup key cs.endpoints) in
    ground (arith, eq_iff key k, lookup-insert key k (update_entry r now before) cs.endpoints)

replay-for_key :
    (start : ChainState) (k : String) (h : List Observation)
    → start.endpoints ≡ []
    → or_zero zero_endpoint (lookup k (replay start h).endpoints) ≡ after_runs (for_key k h)
unfolding replay for_key after_runs
replay-for_key start k [] e = rw e (unfold lookup in refl)
replay-for_key start k ((r, now) ∷ older) e =
    ground (arith, lookup-update r now (replay start older) k, replay-for_key start k older e)

-- After any sequence of updates of a chain that started with no entries, at most 2^63 - 1 of them,
-- the entry of a key holds the number of failures of that key since its last pass, and the time
-- and the evidence of the first of these failures.
pub replay-Holds :
    (start : ChainState) (k : String) (h : List Observation)
    → start.endpoints ≡ []
    → length h ≤ max_int
    → Holds (or_zero zero_endpoint (lookup k (replay start h).endpoints)) (failing (for_key k h))
replay-Holds start k h e small =
    rw (replay-for_key start k h e)
      (after_runs-Holds (for_key k h) (omega (arith, length-for_key k h)))

-- A key is cut back into the check and the address that it was made from, for a check's name with
-- no bar in it.
pub cut-endpoint_key :
    (check address : String)
    → has_char check b'|' ≡ false
    → cut (endpoint_key check address) b'|' ≡ some (check, address)
unfolding endpoint_key
cut-endpoint_key check address h =
    rw (append_assoc check "|" address, cons-append "|" "" address, nil-append address)
      (cut-append check address "|" h)
