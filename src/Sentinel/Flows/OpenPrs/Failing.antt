-- ===== src/Sentinel/Flows/OpenPrs/Failing.antt =====
-- `collectFlagged` (cmd/sentinel/prflow.go) against the state that it reads.
use chain_registry_sentinel.Base.{
  ◌≡◌, refl, inl, inr, String, Bool, true, false, Option, none, some, List, [], ◌∷◌, All, Memᴰ,
  str_eq, Bool-cases, eq_iff, subst,
}
use chain_registry_sentinel.Base.Int.{ℤ, leb_ℤ}
use chain_registry_sentinel.Base.Map.{Dict, lookup, or_zero}
use chain_registry_sentinel.Base.Text.{cut, has_suffix}
use chain_registry_sentinel.State.{EndpointState, ChainState}
use chain_registry_sentinel.Sentinel.Streaks.{StateMap}
use chain_registry_sentinel.Sentinel.Flows.Endpoint.{
  FlaggedEndpoint, flagged_key, entry_of, cons_flagged, flagged_entry, flagged_of, collect_flagged,
  has_passed, still_dead, cons_some,
}

-- The endpoint stands in the state of its chain: an entry whose key is cut, at its first bar, into the
-- endpoint's check, which is not a chain-ID check, and its address, with at least `threshold`
-- consecutive failures, and the endpoint carries the entry's failures, time and evidence.
pub record HasFailed (m : StateMap) (threshold : ℤ) (name : String) (ep : FlaggedEndpoint)
    : Type 0 where
  pub chain_state : ChainState
  pub of_chain : Memᴰ (name, chain_state) m
  pub key : String
  pub entry : EndpointState
  pub of_key : Memᴰ (key, entry) chain_state.endpoints
  pub cuts : cut key b'|' ≡ some (ep.check, ep.address)
  pub plain : has_suffix ep.check "_chain_id" ≡ false
  pub reached : leb_ℤ threshold entry.consecutive_failures ≡ true
  pub failures : ep.consecutive_failures ≡ entry.consecutive_failures
  pub since : ep.first_failure_time ≡ entry.first_failure_time
  pub first : ep.first_evidence ≡ entry.first_evidence
  pub last : ep.last_evidence ≡ entry.last_evidence

module _ (m : StateMap) (threshold : ℤ) (name : String) (cs : ChainState)
    (here : Memᴰ (name, cs) m) where
  entry_of-HasFailed :
      (key : String) (e : EndpointState) (cutting : Option (String × String))
      (eps : List FlaggedEndpoint)
      → Memᴰ (key, e) cs.endpoints
      → cut key b'|' ≡ cutting
      → leb_ℤ threshold e.consecutive_failures ≡ true
      → All (HasFailed m threshold name) eps
      → All (HasFailed m threshold name) (cons_some (entry_of e cutting) eps)
  entry_of-HasFailed key e none eps listed cuts h hs = hs
  entry_of-HasFailed key e (some (check, address)) eps listed cuts h hs =
      elim (Bool-cases (has_suffix check "_chain_id")) [
        | inl chain_id ↦ rw chain_id hs
        | inr plain ↦ rw plain (
          record {
            chain_state = cs;
            of_chain = here;
            key = key;
            entry = e;
            of_key = listed;
            cuts = cuts;
            plain = plain;
            reached = h;
            failures = refl;
            since = refl;
            first = refl;
            last = refl;
          },
          hs,
        )
      ]

  flagged_of-HasFailed :
      (es : Dict EndpointState)
      → ((x : String × EndpointState) → Memᴰ x es → Memᴰ x cs.endpoints)
      → All (HasFailed m threshold name) (flagged_of threshold es)
  unfolding flagged_of flagged_entry
  flagged_of-HasFailed [] within = tt
  flagged_of-HasFailed ((key, e) ∷ es) within =
      let rest = flagged_of-HasFailed es (λ x l. within x (Memᴰ.tail l)) in
      elim (Bool-cases (leb_ℤ threshold e.consecutive_failures)) [
        | inl reached ↦ rw reached (
            entry_of-HasFailed key e (cut key b'|') _ (within (key, e) (Memᴰ.head refl)) refl
              reached rest)
        | inr below ↦ rw below rest
      ]

module _ (m : StateMap) (threshold : ℤ) where
  cons_flagged-HasFailed :
      (name other : String) (eps : List FlaggedEndpoint) (rest : Dict (List FlaggedEndpoint))
      → All (HasFailed m threshold name) eps
      → All (HasFailed m threshold other) (or_zero [] (lookup other rest))
      → All (HasFailed m threshold other) (or_zero [] (lookup other (cons_flagged name eps rest)))
  unfolding lookup
  cons_flagged-HasFailed name other [] rest hs hr = hr
  cons_flagged-HasFailed name other (ep ∷ eps) rest hs hr = elim (Bool-cases (str_eq name other)) [
    | inl same ↦
        rw same
          (subst (λ k. All (HasFailed m threshold k) (ep ∷ eps)) ((eq_iff name other).0 same) hs)
    | inr apart ↦ rw apart hr
  ]

  pub collect_flagged-HasFailed :
      (name : String) (m' : StateMap)
      → ((x : String × ChainState) → Memᴰ x m' → Memᴰ x m)
      → All (HasFailed m threshold name) (or_zero [] (lookup name (collect_flagged m' threshold)))
  unfolding collect_flagged lookup
  collect_flagged-HasFailed name [] within = tt
  collect_flagged-HasFailed name ((j, cs) ∷ m') within =
      cons_flagged-HasFailed j name _ _
        (flagged_of-HasFailed m threshold j cs (within (j, cs) (Memᴰ.head refl)) cs.endpoints
          (λ x l. l))
        (collect_flagged-HasFailed name m' (λ x l. within x (Memᴰ.tail l)))

pub still_dead-HasFailed :
    (m : StateMap) (threshold : ℤ) (passed : Dict (Dict Bool)) (name : String)
    (eps : List FlaggedEndpoint)
    → All (HasFailed m threshold name) eps
    → All
        (λ ep. HasFailed m threshold name ep × (has_passed passed name (flagged_key ep) ≡ false))
        (still_dead passed name eps)
unfolding still_dead
still_dead-HasFailed m threshold passed name [] hs = tt
still_dead-HasFailed m threshold passed name (ep ∷ eps) (h, hs) =
    let rest = still_dead-HasFailed m threshold passed name eps hs in
    elim (Bool-cases (has_passed passed name (flagged_key ep))) [
      | inl alive ↦ rw alive rest
      | inr dead ↦ rw dead ((h, dead), rest)
    ]
