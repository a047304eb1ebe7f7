-- ===== src/Sentinel/Flows/Status.antt =====
-- cmd/sentinel/chaindeath.go: `maybeOpenStatusPRs`, which opens the status-flip pull requests.
pub mod Bounds
use chain_registry_sentinel.Base.{
  ℕ, suc, String, Bool, true, false, ◌||◌, List, [], ◌∷◌, if◌then◌else◌,
}
use chain_registry_sentinel.Base.Map.{lookup, insert, or_zero}
use chain_registry_sentinel.Base.Time.{Time}
use chain_registry_sentinel.State.{ChainState, zero_chain}
use chain_registry_sentinel.Sentinel.Streaks.{StateMap}
use chain_registry_sentinel.Sentinel.Flows.{Reply, has_opened, Cli, can_open, in_cooldown, at_cap}

pub record Run : Type 0 where
  pub state_map : StateMap
  pub opened : List String

pub data Round : Type 0 where
  stop pass : Round
  open_pr : ChainState → Round

-- `open_status_pr` stands for `github.OpenStatusPR` with the evidence that
-- `buildStatusEvidence` makes from the run's facts and the chain's state.
module _ (open_status_pr : String → ChainState → Reply) (now : Time) where
  unfoldable pub stamp : String → ChainState → Bool → StateMap → StateMap
  stamp name cs true m = m
  stamp name cs false m = insert name (record cs { last_status_pr_opened_at = now }) m

  abbrev pub cons_opened : String → Run → Run
  cons_opened name run = record run { opened = name ∷ run.opened }

  unfoldable pub round : Cli → String → ℕ → StateMap → Round
  unfolding in_cooldown
  round cli name opened m =
      let cs = or_zero zero_chain (lookup name m) in
      if at_cap opened cli.max_status_prs
      then stop
      else if in_cooldown cli.cooldown cs.last_status_pr_opened_at now
      then pass
      else if cli.dry_run || has_opened (open_status_pr name cs)
      then open_pr cs
      else pass

  -- What follows from a round, where `rest` is the rest of the loop.
  abbrev pub proceed : (ℕ → StateMap → Run) → Bool → String → ℕ → StateMap → Round → Run
  proceed rest dry_run name opened m stop = record { state_map = m; opened = [] }
  proceed rest dry_run name opened m pass = rest opened m
  proceed rest dry_run name opened m (open_pr cs) =
      cons_opened name (rest (suc opened) (stamp name cs dry_run m))

  -- The loop over the candidates.
  unfoldable pub open_status_prs : Cli → List String → ℕ → StateMap → Run
  unfolding round
  open_status_prs cli [] opened m = record { state_map = m; opened = [] }
  open_status_prs cli (name ∷ candidates) opened m =
      proceed (open_status_prs cli candidates) cli.dry_run name opened m (round cli name opened m)

  -- `maybeOpenStatusPRs` on a state map that is not nil. No candidate, no change.
  unfoldable pub maybe_open_status_prs : Cli → List String → StateMap → Run
  unfolding can_open open_status_prs
  maybe_open_status_prs cli candidates m =
      if can_open cli
      then open_status_prs cli candidates 0 m
      else record { state_map = m; opened = [] }
