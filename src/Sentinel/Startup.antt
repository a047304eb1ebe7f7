-- ===== src/Sentinel/Startup.antt =====
-- cmd/sentinel/main.go: `missingFromRegistry` and `loadStateMap`. `load` stands for `state.Load` at the
-- file of a chain, and `decimal` for `%d`.
pub mod Loaded
use chain_registry_sentinel.Base.{
  ℕ, String, Bool, true, false, not, Option, none, some, List, [], ◌∷◌, keep, map, length,
  if◌then◌else◌,
}
use chain_registry_sentinel.Base.Map.{Dict, lookup, insert, is_some}
use chain_registry_sentinel.Base.Text.{◌+s◌}
use chain_registry_sentinel.Registry.{Chain}
use chain_registry_sentinel.Checks.Error.{GoError, errorf}
use chain_registry_sentinel.Github.Outcome.{Outcome, ok, err}
use chain_registry_sentinel.State.{ChainState, zero_chain}
use chain_registry_sentinel.Sentinel.Streaks.{StateMap}

-- The map `loaded`.
unfoldable pub loaded_names : List Chain → Dict (Unit {0}) → Dict (Unit {0})
loaded_names [] m = m
loaded_names (ch ∷ chains) m = loaded_names chains (insert ch.name tt m)

-- `missingFromRegistry`; without a filter the loop keeps nothing, as the early return does.
unfoldable pub missing_from_registry : List String → List Chain → List String
unfolding loaded_names
missing_from_registry filter chains =
    keep (λ name. not (is_some (lookup name (loaded_names chains [])))) filter

-- The state map and the texts of the errors so far.
pub record Loading : Type 0 where
  pub state_map : StateMap
  pub unreadable : List String

abbrev pub note_loaded : Chain → Outcome ChainState → Loading → Loading
note_loaded ch (ok cs) l = record l {
  state_map = insert ch.name (record cs { chain_id = ch.chain_id }) l.state_map;
}
note_loaded ch (err e) l = record {
  state_map = insert ch.name (record zero_chain { chain_id = ch.chain_id }) l.state_map;
  unreadable = (ch.name +s ": " +s GoError.message e) ∷ l.unreadable;
}

-- The texts in the order of the chains.
abbrev pub joined : List String → String → String
joined [] text = text
joined (u ∷ []) text = u +s text
joined (u ∷ v ∷ us) text = joined (v ∷ us) ("\n  " +s u +s text)

module _ (load : String → Outcome ChainState) (decimal : ℕ → String) where
  unfoldable pub load_all : List Chain → Loading → Loading
  load_all [] l = l
  load_all (ch ∷ chains) l = load_all chains (note_loaded ch (load ch.name) l)

  abbrev pub refuse_unreadable : Bool → StateMap → List String → Outcome StateMap
  refuse_unreadable reset_state m [] = ok m
  refuse_unreadable true m (u ∷ us) = ok m
  refuse_unreadable false m (u ∷ us) = err (
      errorf (
        decimal (length (u ∷ us))
        +s " state file(s) could not be read; refusing to discard accumulated streaks.\n"
        +s "Fix or delete them, or pass --reset-state to start those chains fresh:\n  "
        +s joined (u ∷ us) ""))

  -- `loadStateMap`.
  unfoldable pub load_state_map : List Chain → Bool → Outcome StateMap
  unfolding load_all
  load_state_map chains reset_state =
      let l = load_all chains (record { state_map = []; unreadable = [] }) in
      refuse_unreadable reset_state l.state_map l.unreadable
