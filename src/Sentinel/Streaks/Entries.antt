-- ===== src/Sentinel/Streaks/Entries.antt =====
-- `updateState` (cmd/sentinel/main.go): the entry of an endpoint, and the number of flagged ones.
use mathlib.Core.Option.{some-injective}
use chain_registry_sentinel.Base.{
  ap, sym, ◌∙◌, ℕ, ◌+◌, ◌≡◌, refl, String, Bool, ◌&&◌, Option, none, some, List, [], ◌∷◌, arith,
  count, str_eq, eq_iff, eq_refl, Bool-cases, inl, inr, if◌then◌else◌,
}
use chain_registry_sentinel.Base.Int.{ℤ}
use chain_registry_sentinel.Base.Map.{
  Dict, lookup, insert, or_zero, is_some, lookup-insert, lookup-filter_keys,
}
use chain_registry_sentinel.Base.Panic.{>>=-eq-some}
use chain_registry_sentinel.Base.Time.{Time}
use chain_registry_sentinel.Checks.Result.{Result}
use chain_registry_sentinel.State.{
  endpoint_key, EndpointState, ChainState, zero_endpoint, update_entry, update, prune,
}
use chain_registry_sentinel.Sentinel.Jobs.Active.{is_active}
use chain_registry_sentinel.Sentinel.Streaks.{
  StateMap, is_measured, write_back, update_chain, update_all, is_flagged, prune_all, update_state,
}

abbrev pub entry_in : String → Option ChainState → Option EndpointState
entry_in k none = none
entry_in k (some cs) = lookup k cs.endpoints

-- The entry of a chain under a key.
pub lookup_entry : String → String → StateMap → Option EndpointState
lookup_entry name k m = entry_in k (lookup name m)

-- Whether a result is a measurement of that endpoint.
pub measures : String → String → Result → Bool
measures name k r =
    is_measured r && (str_eq r.chain name && str_eq (endpoint_key r.check r.endpoint) k)

-- An entry behind the measurements of a run, in order.
pub entry_after : String → String → List Result → Time → Option EndpointState → Option EndpointState
unfolding measures
entry_after name k [] now e = e
entry_after name k (r ∷ rs) now e =
    entry_after name k rs now
      (if measures name k r then some (update_entry r now (or_zero zero_endpoint e)) else e)

-- Writing the state of a chain changes the entries of that chain alone.
pub insert-entry :
    (name k c : String) (cs : ChainState) (m : StateMap)
    → lookup_entry name k (insert c cs m)
      ≡ (if str_eq c name then lookup k cs.endpoints else lookup_entry name k m)
unfolding lookup_entry
insert-entry name k c cs m =
    rw (lookup-insert c name cs m)
      (elim (Bool-cases (str_eq c name)) [ inl same ↦ rw same | inr differ ↦ rw differ ])

update_chain-some :
    (r : Result) (now : Time) (m : StateMap) (o : Option ChainState) {m' : StateMap}
    → write_back r now m o ≡ some m'
    → (cs : ChainState) × (o ≡ some cs) × (insert r.chain (update r now cs) m ≡ m')
update_chain-some r now m none e = cc
update_chain-some r now m (some cs) e = (cs, refl, some-injective _ _ e)

update-entry :
    (r : Result) (now : Time) (cs : ChainState) (k : String)
    → lookup k (update r now cs).endpoints ≡ (
        if str_eq (endpoint_key r.check r.endpoint) k
        then some (update_entry r now (or_zero zero_endpoint (lookup k cs.endpoints)))
        else lookup k cs.endpoints)
unfolding update
update-entry r now cs k =
    let key = endpoint_key r.check r.endpoint in
    let before = or_zero zero_endpoint (lookup key cs.endpoints) in
    ground (arith, eq_iff key k, lookup-insert key k (update_entry r now before) cs.endpoints)

entry-of :
    (name k : String) (m : StateMap) {cs : ChainState}
    → lookup name m ≡ some cs
    → lookup_entry name k m ≡ lookup k cs.endpoints
unfolding lookup_entry
entry-of name k m e = rw e

-- One round of the first loop.
round-entry :
    (name k : String) (r : Result) (now : Time) (m : StateMap) {m' : StateMap}
    → (if is_measured r then update_chain r now m else some m) ≡ some m'
    → lookup_entry name k m' ≡ (
        if measures name k r
        then some (update_entry r now (or_zero zero_endpoint (lookup_entry name k m)))
        else lookup_entry name k m)
unfolding measures
round-entry name k r now m {m'} e = elim (Bool-cases (is_measured r)) [
  | inl seen ↦
      let written : write_back r now m (lookup r.chain m) ≡ some m' =
        unfold update_chain in simp seen at e in
      let (cs, found, same) = update_chain-some r now m (lookup r.chain m) written in
      rw (← same) (
        ground (
          arith,
          insert-entry name k r.chain (update r now cs) m,
          update-entry r now cs k,
          entry-of r.chain k m found,
          eq_iff r.chain name,
        ))
  | inr unseen ↦ ground (arith, unseen)
]

-- The first loop, entry by entry.
update_all-entry :
    (name k : String) (rs : List Result) (now : Time) (m : StateMap) {m' : StateMap}
    → update_all rs now m ≡ some m'
    → lookup_entry name k m' ≡ entry_after name k rs now (lookup_entry name k m)
unfolding entry_after update_all
update_all-entry name k [] now m e = ap (lookup_entry name k) (sym (some-injective _ _ e))
update_all-entry name k (r ∷ rs) now m e =
    let (m₁, first, later) =
      >>=-eq-some (if is_measured r then update_chain r now m else some m) _ e in
    update_all-entry name k rs now m₁ later
    ∙ ap (entry_after name k rs now) (round-entry name k r now m first)

map_state : (ChainState → ChainState) → Option ChainState → Option ChainState
map_state f none = none
map_state f (some cs) = some (f cs)

lookup-prune_all :
    (name : String) (active : Dict (Dict (Unit {0}))) (threshold : ℤ) (m : StateMap)
    → lookup name (prune_all active threshold m).0
      ≡ map_state (prune (or_zero [] (lookup name active))) (lookup name m)
unfolding prune_all lookup map_state
lookup-prune_all name active threshold [] = refl
lookup-prune_all name active threshold ((j, cs) ∷ m) = elim (Bool-cases (str_eq j name)) [
  | inl same ↦ rw ((eq_iff j name).0 same) (simp (eq_refl name))
  | inr differ ↦ rw differ (lookup-prune_all name active threshold m)
]

entry-pruned :
    (k : String) (keys : Dict (Unit {0})) (o : Option ChainState)
    → entry_in k (map_state (prune keys) o)
      ≡ (if is_some (lookup k keys) then entry_in k o else none)
unfolding map_state prune
entry-pruned k keys none = ground arith
entry-pruned k keys (some cs) = lookup-filter_keys (λ key. is_some (lookup key keys)) k cs.endpoints

pruned-entry :
    (name k : String) (active : Dict (Dict (Unit {0}))) (threshold : ℤ) (m : StateMap)
    → lookup_entry name k (prune_all active threshold m).0
      ≡ (if is_active active name k then lookup_entry name k m else none)
unfolding lookup_entry is_active
pruned-entry name k active threshold m =
    ap (entry_in k) (lookup-prune_all name active threshold m)
    ∙ entry-pruned k (or_zero [] (lookup name active)) (lookup name m)

update_state-some :
    (m : StateMap) (results : List Result) (active : Dict (Dict (Unit {0}))) (threshold : ℤ)
    (now : Time) {out : StateMap × ℕ}
    → update_state m results active threshold now ≡ some out
    → (m₁ : StateMap) × (update_all results now m ≡ some m₁) × (prune_all active threshold m₁ ≡ out)
unfolding update_state
update_state-some m results active threshold now e =
    let (m₁, looped, done) = >>=-eq-some (update_all results now m) _ e in
    (m₁, looped, some-injective _ _ done)

-- If the fold does not panic, the entry of every chain and key is what the run's measurements of that
-- endpoint, in their order, make of the entry before it, for a key that a job of the run keeps
-- active, and is gone for any other key; results that are skipped, that are not of a liveness
-- check or that are about another endpoint change nothing of it.
pub update_state-entry :
    (name k : String) (m : StateMap) (results : List Result) (active : Dict (Dict (Unit {0})))
    (threshold : ℤ) (now : Time) {out : StateMap × ℕ}
    → update_state m results active threshold now ≡ some out
    → lookup_entry name k out.0 ≡ (
        if is_active active name k
        then entry_after name k results now (lookup_entry name k m)
        else none)
update_state-entry name k m results active threshold now {out} e =
    let (m₁, looped, done) = update_state-some m results active threshold now e in
    rw (← done) (
      pruned-entry name k active threshold m₁
      ∙ ap (λ entry. if is_active active name k then entry else none)
          (update_all-entry name k results now m looped))

-- The endpoints of all chains whose streak has reached the threshold.
pub flagged_total : ℤ → StateMap → ℕ
flagged_total threshold [] = 0
flagged_total threshold ((name, cs) ∷ m) =
    count (is_flagged threshold) cs.endpoints + flagged_total threshold m

prune_all-flagged :
    (active : Dict (Dict (Unit {0}))) (threshold : ℤ) (m : StateMap)
    → (prune_all active threshold m).1 ≡ flagged_total threshold (prune_all active threshold m).0
unfolding prune_all flagged_total
prune_all-flagged active threshold [] = refl
prune_all-flagged active threshold ((name, cs) ∷ m) =
    let cs' = prune (or_zero [] (lookup name active)) cs in
    ap (λ n. count (is_flagged threshold) cs'.endpoints + n) (prune_all-flagged active threshold m)

-- The number that is returned is that of the endpoints in the new state, behind the pruning, whose
-- streak has reached the threshold.
pub update_state-flagged :
    (m : StateMap) (results : List Result) (active : Dict (Dict (Unit {0}))) (threshold : ℤ)
    (now : Time) {out : StateMap × ℕ}
    → update_state m results active threshold now ≡ some out
    → out.1 ≡ flagged_total threshold out.0
update_state-flagged m results active threshold now {out} e =
    let (m₁, looped, done) = update_state-some m results active threshold now e in
    rw (← done) (prune_all-flagged active threshold m₁)
