-- ===== src/Github/Body.antt =====
-- internal/github/pr.go: the texts of the pull requests and of the notice on one.
use chain_registry_sentinel.Base.{String, Bool, true, List, [], ◌∷◌, str_eq, if◌then◌else◌}
use chain_registry_sentinel.Base.Int.{ℤ, is_zero}
use chain_registry_sentinel.Base.Text.{◌+s◌, replace}
use chain_registry_sentinel.Base.Time.{Time}
use chain_registry_sentinel.Registry.{Chain}
use chain_registry_sentinel.Checks.GrpcTarget.{Addresses, Target, parse_grpc_target}
use chain_registry_sentinel.Sentinel.Flows.Endpoint.{FlaggedEndpoint}
use chain_registry_sentinel.Github.Outcome.{Outcome, ok, err}
use chain_registry_sentinel.Github.Call.{Formats}

pub record HashFix : Type 0 where
  pub asset_name : String
  pub base : String
  pub expected : String
  pub path : String

pub record WithdrawnOperator : Type 0 where
  pub domain : String
  pub live_elsewhere : ℤ
  pub dead_here : ℤ

pub record StatusPrEvidence : Type 0 where
  pub streak : ℤ
  pub first_seen : Time
  pub endpoints_probed : ℤ
  pub class_lines : List String
  pub withdrawn : List WithdrawnOperator
  pub newest_block_time : Time
  pub sample_host : String

-- The text of a loop that writes one text for each entry.
abbrev pub each {ℓ} : {A : Type ℓ} → (A → String) → List A → String
each f [] = ""
each f (x ∷ xs) = f x +s each f xs

-- A part that is written for a list with entries.
abbrev pub unless_empty {ℓ} : {A : Type ℓ} → List A → String → String
unless_empty [] text = ""
unless_empty (_ ∷ _) text = text

-- `strings.ReplaceAll(s, "|", "\\|")`.
unfoldable pub escape_markdown : String → String
escape_markdown s = replace s b'|' "\\|"

abbrev pub grpc_verify_method : String
grpc_verify_method = "cosmos.base.tendermint.v1beta1.Service/GetNodeInfo"

-- The modes are `len(modes) == 2`, or `modes[0]`, or neither.
abbrev pub grpc_line : Target → List Bool → String
grpc_line t (first ∷ second ∷ []) =
    "grpcurl " +s t.target +s " " +s grpc_verify_method
    +s "   # TLS first, as probed; if the dial fails, retry with -plaintext"
grpc_line t (true ∷ _) = "grpcurl " +s t.target +s " " +s grpc_verify_method
grpc_line t _ = "grpcurl -plaintext " +s t.target +s " " +s grpc_verify_method

abbrev pub grpc_command : Outcome Target → String → String
grpc_command (err e) address = "grpcurl " +s address +s " " +s grpc_verify_method
grpc_command (ok t) address = grpc_line t t.modes

module _ (A : Addresses) where
  unfoldable pub grpc_verify_cmd : String → String
  grpc_verify_cmd address = grpc_command (parse_grpc_target A address) address

  unfoldable pub verify_cmd : String → String → String
  unfolding grpc_verify_cmd
  verify_cmd check address =
      if str_eq check "rpc_liveness"
      then "curl -s '" +s address +s "/status' | jq .result.node_info.network"
      else if str_eq check "rest_liveness"
      then "curl -s '" +s address
        +s "/cosmos/base/tendermint/v1beta1/node_info' | jq .default_node_info.network"
      else if str_eq check "grpc_web_liveness"
      then "printf '\\x00\\x00\\x00\\x00\\x00' | curl -s -X POST"
        +s " -H 'Content-Type: application/grpc-web+proto' -H 'X-Grpc-Web: 1' --data-binary @-"
        +s " '" +s address
        +s "/cosmos.base.tendermint.v1beta1.Service/GetNodeInfo' | strings | head"
      else if str_eq check "grpc_liveness"
      then grpc_verify_cmd address
      else if str_eq check "evm_liveness"
      then "curl -s -X POST -H 'Content-Type: application/json' -d "
        +s "'{\"jsonrpc\":\"2.0\",\"method\":\"eth_chainId\",\"params\":[],\"id\":1}' '" +s address
        +s "'"
      else if str_eq check "wss_liveness"
      then "websocat '" +s address +s "'"
      else "curl -s '" +s address +s "'"

module _ (F : Formats) (A : Addresses) where
  abbrev dead_row : FlaggedEndpoint → String
  unfolding escape_markdown
  dead_row ep =
      "| `"
      +s ep.check
      +s "` | `"
      +s ep.address
      +s "` | "
      +s F.date ep.first_failure_time
      +s " | "
      +s F.decimal ep.consecutive_failures
      +s " | "
      +s escape_markdown ep.first_evidence
      +s " | "
      +s escape_markdown ep.last_evidence
      +s " |\n"

  abbrev verify_block : FlaggedEndpoint → String
  verify_block ep =
      "**"
      +s ep.check
      +s "** — `"
      +s ep.address
      +s "`:\n```\n"
      +s verify_cmd A ep.check ep.address
      +s "\n```\n\n"

  -- `BuildPRBody`. The times are in UTC.
  unfoldable pub build_pr_body : Chain → List FlaggedEndpoint → String
  unfolding dead_row
  build_pr_body chain dead =
      "## Dead endpoints\n\n"
      +s "| Check | Address | First seen failing | Consecutive failures | First evidence | Latest evidence |\n"
      +s "|-------|---------|-------------|---------------------|----------------|------------------|\n"
      +s each dead_row dead
      +s "\n## Verification\n\nRun these commands to confirm before closing:\n\n"
      +s each verify_block dead
      +s "---\n\n"
      +s "> This PR was opened automatically by chain-registry-sentinel CI for chain `"
      +s chain.name
      +s "` (`"
      +s chain.chain_id
      +s "`).\n"
      +s "> If these endpoints have recovered or this is a false positive, close this PR with a note — "
      +s "the sentinel will re-evaluate on the next run.\n"

abbrev fix_row : HashFix → String
fix_row f =
    "| `" +s f.asset_name +s "` | `" +s f.base +s "` | `" +s f.expected +s "` | `" +s f.path
    +s "` |\n"

-- `BuildHashMismatchPRBody`.
unfoldable pub build_hash_mismatch_pr_body : String → List HashFix → String
build_hash_mismatch_pr_body chain_name fixes =
    "## IBC denom hash mismatches\n\n"
    +s "The `base` field of these IBC assets does not match SHA256 of the declared trace path.\n"
    +s "The path is treated as ground truth; the `base` field and matching `denom_units` entries are updated.\n\n"
    +s "| Asset | Declared base | Expected base | Path |\n"
    +s "|-------|--------------|--------------|------|\n"
    +s each fix_row fixes
    +s "\n---\n\n"
    +s "> Opened automatically by chain-registry-sentinel CI for chain `"
    +s chain_name
    +s "`.\n"
    +s "> Hash is recomputed from the `chain.path` of the last trace entry (SHA256 of the denom trace path string).\n"

module _ (F : Formats) where
  abbrev operator_row : WithdrawnOperator → String
  operator_row w =
      "| `"
      +s w.domain
      +s "` | "
      +s F.decimal w.dead_here
      +s " | "
      +s F.decimal w.live_elsewhere
      +s " |\n"

  abbrev line : String → String
  line text = text +s "\n"

  -- `BuildStatusPRBody`.
  unfoldable pub build_status_pr_body : String → StatusPrEvidence → String
  build_status_pr_body chain_name ev =
      "## `"
      +s chain_name
      +s "` appears to be a dead chain\n\n"
      +s "This PR flips `status` from `live` to `killed` — one line that removes "
      +s F.decimal ev.endpoints_probed
      +s " declared endpoints\n"
      +s "from every downstream consumer's view at once, instead of deleting them one by one.\n\n"
      +s "**The chain has looked dead for "
      +s F.decimal ev.streak
      +s " consecutive sentinel runs** (since "
      +s F.date ev.first_seen
      +s ").\n\n"
      +s unless_empty ev.class_lines
          ("| Check | Result |\n|-------|--------|\n" +s each line ev.class_lines +s "\n")
      +s unless_empty ev.withdrawn (
          "**Healthy operators have withdrawn from this chain.** Each of these providers serves\n"
          +s "other chains normally but returns nothing for this one — deliberate decommission, not outage:\n\n"
          +s "| Operator | Dead here | Live on other chains |\n|----------|-----------|----------------------|\n"
          +s each operator_row ev.withdrawn
          +s "\n")
      +s (if is_zero ev.newest_block_time
          then ""
          else "The freshest `latest_block_time` any still-answering node reports is **"
            +s F.rfc3339 ev.newest_block_time
            +s "** — block\n"
            +s "production has stopped; the survivors are answering about a chain that no longer advances.\n\n")
      +s (if str_eq ev.sample_host ""
          then ""
          else "Verify in one line:\n\n" +s "```\ndig +short " +s ev.sample_host
            +s "   # no address\n```\n\n")
      +s "---\n\n"
      +s "> Opened automatically by chain-registry-sentinel for chain `"
      +s chain_name
      +s "`.\n"
      +s "> If this chain is alive somewhere the sentinel cannot see, close this PR — endpoint\n"
      +s "> streaks reset on any successful probe, and a fresh PR would need the full streak again.\n"

  -- `BuildSupersededComment`.
  unfoldable pub build_superseded_comment : String → ℤ → String
  build_superseded_comment chain status_pr_num =
      "The sentinel has opened #"
      +s F.decimal status_pr_num
      +s " proposing to mark `"
      +s chain
      +s "` as `killed` — the whole chain now "
      +s "looks dead, not just the entries fixed here. If #"
      +s F.decimal status_pr_num
      +s " merges, this PR is superseded and can be closed. "
      +s "(Automated notice; the sentinel never closes PRs itself.)"
