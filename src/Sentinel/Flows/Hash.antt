-- ===== src/Sentinel/Flows/Hash.antt =====
-- cmd/sentinel/hashpr.go: the IBC hash-fix flow. `mismatches` are those of `runHashChecks`.
pub mod Bounds
use chain_registry_sentinel.Base.{
  ℕ, suc, String, Bool, true, false, ◌||◌, List, [], ◌∷◌, if◌then◌else◌,
}
use chain_registry_sentinel.Base.Map.{Dict, lookup, insert, or_zero}
use chain_registry_sentinel.Base.Time.{Time, Duration}
use chain_registry_sentinel.Registry.{Chain}
use chain_registry_sentinel.Checks.IbcHash.{AssetList, HashMismatch, check_denom_hashes}
use chain_registry_sentinel.State.{ChainState, zero_chain}
use chain_registry_sentinel.Sentinel.Streaks.{StateMap}
use chain_registry_sentinel.Sentinel.Flows.{Reply, has_opened, Cli, can_open, in_cooldown, at_cap}

-- What `LoadAssetList` returns: an error is logged and the chain is skipped.
pub data LoadedAssets : Type 0 where
  loaded : AssetList → LoadedAssets
  load_error : LoadedAssets

module _ (sha256_hex : String → String) where
  note_mismatches : String → List HashMismatch → Dict (List HashMismatch) → Dict (List HashMismatch)
  note_mismatches name [] result = result
  note_mismatches name (h ∷ mm) result = insert name (h ∷ mm) result

  note_assets : String → LoadedAssets → Dict (List HashMismatch) → Dict (List HashMismatch)
  unfolding note_mismatches check_denom_hashes
  note_assets name load_error result = result
  note_assets name (loaded al) result =
      note_mismatches name (check_denom_hashes sha256_hex al) result

  -- The loop of `runHashChecks`; `load` stands for `registry.LoadAssetList` at the registry's path.
  unfoldable pub run_hash_checks :
      (String → LoadedAssets) → List Chain → Dict (List HashMismatch) → Dict (List HashMismatch)
  unfolding note_assets
  run_hash_checks load [] result = result
  run_hash_checks load (ch ∷ chains) result =
      run_hash_checks load chains (note_assets ch.name (load ch.name) result)

pub record OpenedHash : Type 0 where
  pub chain_name : String
  pub mm : List HashMismatch

pub record Run : Type 0 where
  pub state_map : StateMap
  pub opened : List OpenedHash

pub data Round : Type 0 where
  stop pass : Round
  open_pr : ChainState → List HashMismatch → Round

abbrev pub is_empty : List HashMismatch → Bool
is_empty [] = true
is_empty (_ ∷ _) = false

abbrev pub is_excluded : Dict Bool → String → Bool
is_excluded exclude name = or_zero false (lookup name exclude)

module _ (open_hash_pr : String → List HashMismatch → Reply) (now : Time) where
  unfoldable pub try_open_hash_pr : String → List HashMismatch → ChainState → Duration → Bool → Bool
  unfolding in_cooldown
  try_open_hash_pr name mm cs cooldown dry_run =
      if in_cooldown cooldown cs.last_hash_pr_opened_at now
      then false
      else dry_run || has_opened (open_hash_pr name mm)

  unfoldable pub stamp : String → ChainState → Bool → StateMap → StateMap
  stamp name cs true m = m
  stamp name cs false m = insert name (record cs { last_hash_pr_opened_at = now }) m

  abbrev pub cons_opened : OpenedHash → Run → Run
  cons_opened o run = record run { opened = o ∷ run.opened }

  unfoldable pub round : Dict (List HashMismatch) → Dict Bool → Cli → Chain → ℕ → StateMap → Round
  unfolding try_open_hash_pr
  round mismatches exclude cli ch opened m =
      let mm = or_zero [] (lookup ch.name mismatches) in
      let cs = or_zero zero_chain (lookup ch.name m) in
      if is_excluded exclude ch.name
      then pass
      else if is_empty mm
      then pass
      else if at_cap opened cli.max_hash_prs
      then stop
      else if try_open_hash_pr ch.name mm cs cli.cooldown cli.dry_run
      then open_pr cs mm
      else pass

  -- What follows from a round, where `rest` is the rest of the loop.
  abbrev pub proceed : (ℕ → StateMap → Run) → Bool → Chain → ℕ → StateMap → Round → Run
  proceed rest dry_run ch opened m stop = record { state_map = m; opened = [] }
  proceed rest dry_run ch opened m pass = rest opened m
  proceed rest dry_run ch opened m (open_pr cs mm) =
      cons_opened (record { chain_name = ch.name; mm = mm })
        (rest (suc opened) (stamp ch.name cs dry_run m))

  -- The loop of `maybeOpenHashPRs`.
  unfoldable pub open_hash_prs :
      Dict (List HashMismatch) → Dict Bool → Cli → List Chain → ℕ → StateMap → Run
  unfolding round
  open_hash_prs mismatches exclude cli [] opened m = record { state_map = m; opened = [] }
  open_hash_prs mismatches exclude cli (ch ∷ chains) opened m =
      proceed (open_hash_prs mismatches exclude cli chains) cli.dry_run ch opened m
        (round mismatches exclude cli ch opened m)

  -- `maybeOpenHashPRs` on a state map that is not nil, behind `runHashChecks`.
  unfoldable pub maybe_open_hash_prs :
      Dict (List HashMismatch) → Cli → List Chain → StateMap → Dict Bool → Run
  unfolding can_open open_hash_prs
  maybe_open_hash_prs mismatches cli chains m exclude =
      if can_open cli
      then open_hash_prs mismatches exclude cli chains 0 m
      else record { state_map = m; opened = [] }
