-- ===== src/Sentinel/Startup/Loaded.antt =====
-- What `loadStateMap` and `missingFromRegistry` (cmd/sentinel/main.go) return.
use chain_registry_sentinel.Base.{
  ℕ, ◌≡◌, refl, ◌∙◌, String, Bool, true, false, ◌||◌, ◌&&◌, not, some, List, [], ◌∷◌, arith, any,
  all, All, keep, str_eq, eq_refl, if◌then◌else◌,
}
use chain_registry_sentinel.Base.Map.{Dict, lookup, insert, is_some, lookup-insert}
use chain_registry_sentinel.Registry.{Chain}
use chain_registry_sentinel.Github.Outcome.{Outcome, ok, err}
use chain_registry_sentinel.State.{ChainState, zero_chain}
use chain_registry_sentinel.Sentinel.Streaks.{StateMap}
use chain_registry_sentinel.Sentinel.Startup.{
  loaded_names, missing_from_registry, Loading, note_loaded, load_all, refuse_unreadable,
  load_state_map,
}

abbrev pub has_name : String → Chain → Bool
has_name name ch = str_eq ch.name name

loaded_names-any :
    (name : String) (chains : List Chain) (m : Dict (Unit {0}))
    → is_some (lookup name (loaded_names chains m))
      ≡ (any (has_name name) chains || is_some (lookup name m))
unfolding loaded_names
loaded_names-any name [] m = refl
loaded_names-any name (ch ∷ chains) m =
    ground
      (arith, loaded_names-any name chains (insert ch.name tt m), lookup-insert ch.name name tt m)

-- The missing names are, in their order, those of the filter that no loaded chain has.
pub missing_from_registry-keep :
    (filter : List String) (chains : List Chain)
    → missing_from_registry filter chains ≡ keep (λ name. not (any (has_name name) chains)) filter
unfolding missing_from_registry lookup
missing_from_registry-keep [] chains = refl
missing_from_registry-keep (name ∷ names) chains =
    ground (arith, loaded_names-any name chains [], missing_from_registry-keep names chains)

abbrev pub is_ok {ℓ} : {A : Type ℓ} → Outcome A → Bool
is_ok (ok a) = true
is_ok (err e) = false

abbrev pub state_or_zero : Outcome ChainState → ChainState
state_or_zero (ok cs) = cs
state_or_zero (err e) = zero_chain

-- No two chains of the list have one name.
abbrev pub HasDistinctNames : List Chain → Type 0
HasDistinctNames [] = Unit
HasDistinctNames (ch ∷ chains) = (any (has_name ch.name) chains ≡ false) × HasDistinctNames chains

abbrev pub none_unreadable : List String → Bool
none_unreadable [] = true
none_unreadable (u ∷ us) = false

note_loaded-lookup :
    (name : String) (ch : Chain) (o : Outcome ChainState) (l : Loading)
    → lookup name (note_loaded ch o l).state_map ≡ (
        if has_name name ch
        then some (record (state_or_zero o) { chain_id = ch.chain_id })
        else lookup name l.state_map)
note_loaded-lookup name ch (ok cs) l =
    lookup-insert ch.name name (record cs { chain_id = ch.chain_id }) l.state_map
note_loaded-lookup name ch (err e) l =
    lookup-insert ch.name name (record zero_chain { chain_id = ch.chain_id }) l.state_map

note_loaded-readable :
    (ch : Chain) (o : Outcome ChainState) (l : Loading)
    → none_unreadable (note_loaded ch o l).unreadable ≡ (is_ok o && none_unreadable l.unreadable)
note_loaded-readable ch (ok cs) l = refl
note_loaded-readable ch (err e) l = refl

module _ (load : String → Outcome ChainState) (decimal : ℕ → String) where
  abbrev pub is_readable : Chain → Bool
  is_readable ch = is_ok (load ch.name)

  -- The entry that a chain starts from.
  abbrev pub start_of : Chain → ChainState
  start_of ch = record (state_or_zero (load ch.name)) { chain_id = ch.chain_id }

  load_all-keeps :
      (name : String) (chains : List Chain) (l : Loading)
      → any (has_name name) chains ≡ false
      → lookup name (load_all load decimal chains l).state_map ≡ lookup name l.state_map
  unfolding load_all
  load_all-keeps name [] l h = refl
  load_all-keeps name (ch ∷ chains) l h = ground (
    arith,
    load_all-keeps name chains (note_loaded ch (load ch.name) l),
    note_loaded-lookup name ch (load ch.name) l,
  )

  load_all-entries :
      (chains : List Chain) (l : Loading)
      → HasDistinctNames chains
      → All
          (λ ch. lookup ch.name (load_all load decimal chains l).state_map ≡ some (start_of ch))
          chains
  unfolding load_all
  load_all-entries [] l h = tt
  load_all-entries (ch ∷ chains) l (fresh, h) =
      let noted = note_loaded ch (load ch.name) l in
      (
        load_all-keeps ch.name chains noted fresh
            ∙ note_loaded-lookup ch.name ch (load ch.name) l
            ∙ rw (eq_refl ch.name) refl,
        load_all-entries chains noted h,
      )

  load_all-readable :
      (chains : List Chain) (l : Loading)
      → none_unreadable (load_all load decimal chains l).unreadable
        ≡ (all is_readable chains && none_unreadable l.unreadable)
  unfolding load_all
  load_all-readable [] l = refl
  load_all-readable (ch ∷ chains) l = ground (
    arith,
    load_all-readable chains (note_loaded ch (load ch.name) l),
    note_loaded-readable ch (load ch.name) l,
  )

  refuse_unreadable-ok :
      (reset_state : Bool) (m : StateMap) (us : List String)
      → (reset_state || none_unreadable us) ≡ true
      → refuse_unreadable load decimal reset_state m us ≡ ok m
  refuse_unreadable-ok reset_state m [] h = refl
  refuse_unreadable-ok true m (u ∷ us) h = refl
  refuse_unreadable-ok false m (u ∷ us) h = cc h

  refuse_unreadable-is_ok :
      (reset_state : Bool) (m : StateMap) (us : List String)
      → is_ok (refuse_unreadable load decimal reset_state m us)
        ≡ (reset_state || none_unreadable us)
  refuse_unreadable-is_ok true m [] = refl
  refuse_unreadable-is_ok false m [] = refl
  refuse_unreadable-is_ok true m (u ∷ us) = refl
  refuse_unreadable-is_ok false m (u ∷ us) = refl

  abbrev loading : List Chain → Loading
  loading chains = load_all load decimal chains (record { state_map = []; unreadable = [] })

  readable_or_reset :
      (chains : List Chain) (reset_state : Bool)
      → (reset_state || none_unreadable (loading chains).unreadable)
        ≡ (reset_state || all is_readable chains)
  readable_or_reset chains reset_state =
      ground (arith, load_all-readable chains (record { state_map = []; unreadable = [] }))

  -- Loading fails exactly where a file cannot be read and no reset is asked for.
  pub load_state_map-is_ok :
      (chains : List Chain) (reset_state : Bool)
      → is_ok (load_state_map load decimal chains reset_state)
        ≡ (reset_state || all is_readable chains)
  unfolding load_state_map
  load_state_map-is_ok chains reset_state =
      refuse_unreadable-is_ok reset_state (loading chains).state_map (loading chains).unreadable
      ∙ readable_or_reset chains reset_state

  -- Where no two chains have one name, and a reset is asked for or every file can be read, loading
  -- succeeds, and each chain starts from what its file holds, or from the empty state, with the ID of
  -- the registry.
  pub load_state_map-start_of :
      (chains : List Chain) (reset_state : Bool)
      → HasDistinctNames chains
      → (reset_state || all is_readable chains) ≡ true
      → (m : StateMap) × (load_state_map load decimal chains reset_state ≡ ok m)
        × All (λ ch. lookup ch.name m ≡ some (start_of ch)) chains
  unfolding load_state_map
  load_state_map-start_of chains reset_state h readable = (
    (loading chains).state_map,
    refuse_unreadable-ok reset_state (loading chains).state_map (loading chains).unreadable
        (readable_or_reset chains reset_state ∙ readable),
    load_all-entries chains (record { state_map = []; unreadable = [] }) h,
  )
