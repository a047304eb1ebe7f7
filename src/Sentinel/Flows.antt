-- ===== src/Sentinel/Flows.antt =====
-- cmd/sentinel/prflow.go, hashpr.go, chaindeath.go: what the three pull-request flows share. What
-- internal/github answers to an opening is an argument of the flows.
pub mod Endpoint
pub mod OpenPrs
pub mod Hash
pub mod Status
pub mod Dispatch
use chain_registry_sentinel.Base.{
  ℕ, String, Bool, true, false, ◌&&◌, ◌||◌, not, Option, none, some, str_eq, if◌then◌else◌,
}
use chain_registry_sentinel.Base.Int.{ℤ, pos, leb_ℤ, ltb_ℤ, is_zero}
use chain_registry_sentinel.Base.Text.{cut}
use chain_registry_sentinel.Base.Time.{Time, Duration, sub}
use chain_registry_sentinel.Checks.Error.{GoError}

-- What `OpenChainPR` and its siblings return: a URL, which is empty when nothing was opened, or an
-- error.
pub data Reply : Type 0 where
  url : String → Reply
  error : GoError → Reply

-- Whether the reply counts as an opened pull request.
abbrev pub has_opened : Reply → Bool
has_opened (url u) = not (str_eq u "")
has_opened (error e) = false

-- The flags and the environment that the flows read.
pub record Cli : Type 0 where
  pub github_repo : String
  pub env_repository : String
  pub github_token : String
  pub env_token : String
  pub dry_run : Bool
  pub min_failures : ℤ
  -- `time.Duration(cli.PRCooldownDays) * 24 * time.Hour`.
  pub cooldown : Duration
  pub max_endpoint_prs : ℤ
  pub max_hash_prs : ℤ
  pub max_status_prs : ℤ

-- `splitRepo`: cut at the first slash, with an empty owner when malformed.
unfoldable pub split_repo : String → String × String
split_repo owner_repo = elim (cut owner_repo b'/') [
  | none ↦ ("", owner_repo)
  | some (owner, repo) ↦ if str_eq owner "" then ("", owner_repo) else (owner, repo)
]

-- A flag, or the environment variable behind it.
unfoldable pub or_env : String → String → String
or_env flag env = if str_eq flag "" then env else flag

-- The guard at the top of the flows: a real run wants a token and an owner.
unfoldable pub can_open : Cli → Bool
unfolding split_repo or_env
can_open cli =
    cli.dry_run
    || not (str_eq (or_env cli.github_token cli.env_token) "")
      && not (str_eq (split_repo (or_env cli.github_repo cli.env_repository)).0 "")

-- `cooldown > 0 && !last.IsZero() && now.Sub(last) < cooldown`.
unfoldable pub in_cooldown : Duration → Time → Time → Bool
in_cooldown cooldown last now =
    ltb_ℤ (pos 0) cooldown && not (is_zero last) && ltb_ℤ (sub now last) cooldown

-- `opened >= max`.
abbrev pub at_cap : ℕ → ℤ → Bool
at_cap opened max = leb_ℤ max (pos opened)
