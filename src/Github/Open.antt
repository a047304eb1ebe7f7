-- ===== src/Github/Open.antt =====
-- internal/github/pr.go: `OpenChainPR`, `OpenHashPR` and `OpenStatusPR`, which take the same steps
-- with their own texts and edits. The logged warnings are left out.
pub mod Phases
pub mod Rules
pub mod Calls
pub mod Protocol
pub mod Results
pub mod Freshness
use chain_registry_sentinel.Base.{
  ℕ, String, Bool, true, false, Option, none, some, List, [], ◌∷◌, str_eq, if◌then◌else◌,
}
use chain_registry_sentinel.Base.Int.{ℤ}
use chain_registry_sentinel.Base.Text.{◌+s◌}
use chain_registry_sentinel.Registry.{Chain}
use chain_registry_sentinel.Checks.GrpcTarget.{Addresses}
use chain_registry_sentinel.Sentinel.Flows.Endpoint.{FlaggedEndpoint}
use chain_registry_sentinel.Github.Outcome.{Outcome, ok, err}
use chain_registry_sentinel.Github.Call.{
  Network, Formats, Session, Exec, pure, continue, wrapped, ◌>>=◌, ◌>>◌,
}
use chain_registry_sentinel.Github.Client.{
  Commit, Pull, default_branch, branch_sha, next_branch_n, has_open_pr, find_open_pr, add_comment,
  get_file_sha, create_branch, commit_file, create_pr, ensure_label, add_labels,
}
use chain_registry_sentinel.Github.Documents.{Documents}
use chain_registry_sentinel.Github.Body.{
  HashFix, StatusPrEvidence, build_pr_body, build_hash_mismatch_pr_body, build_status_pr_body,
  build_superseded_comment,
}
use chain_registry_sentinel.Github.EditChain.{edit_chain_json}
use chain_registry_sentinel.Github.EditAssets.{edit_asset_list_json, edit_chain_status}

abbrev pub label_sentinel : String
label_sentinel = "sentinel"

abbrev pub label_automated : String
label_automated = "automated"

abbrev pub color_sentinel : String
color_sentinel = "0052cc"

abbrev pub color_automated : String
color_automated = "e4e669"

-- The repository, and the branch that is asked for; "" is the default one.
pub record Place : Type 0 where
  pub owner : String
  pub repo : String
  pub base_branch : String

-- In what the three functions differ: the title, the chain's name as `NextBranchN` takes it, the
-- file, the message, the body, and what the edit of the file returns.
pub record Plan (Doc : Type 0) : Type 0 where
  pub title : String
  pub slug : String
  pub file_path : String
  pub commit_msg : String
  pub text : String
  pub edit : Outcome (Option Doc)

module _ (N : Network) (F : Formats) (D : Documents) (at_ : Place) where
  unfoldable pub resolve_base : Exec N String
  resolve_base =
      if str_eq at_.base_branch ""
      then default_branch N F at_.owner at_.repo
      else pure N at_.base_branch

  -- `prepareCommit`.
  unfoldable pub prepare_commit : String → String → Exec N (String × String)
  prepare_commit base file_path = wrapped N "prepareCommit: " (do
    base_sha ← branch_sha N F at_.owner at_.repo base
    (_, blob_sha) ← get_file_sha N F at_.owner at_.repo file_path base
    pure N (base_sha, blob_sha))

  abbrev pub commit_of : Plan D.Doc → String → String → D.Doc → Commit
  commit_of plan branch blob_sha d = record {
    path = plan.file_path;
    branch = branch;
    message = plan.commit_msg;
    blob_sha = blob_sha;
    content = D.bytes d;
  }

  abbrev pub pull_of : Plan D.Doc → String → String → Pull
  pull_of plan branch base = record {
    title = plan.title;
    text = plan.text;
    head = branch;
    base = base;
  }

  -- From the branch on. An edit that changes nothing ends before it.
  unfoldable pub publish :
      Plan D.Doc → String → String → String → String → Option D.Doc → Exec N (Option (ℤ × String))
  publish plan base branch base_sha blob_sha none = pure N none
  publish plan base branch base_sha blob_sha (some d) = do
    create_branch N F at_.owner at_.repo branch base_sha
    commit_file N F at_.owner at_.repo (commit_of plan branch blob_sha d)
    ensure_label N F at_.owner at_.repo label_sentinel color_sentinel
    ensure_label N F at_.owner at_.repo label_automated color_automated
    (number, url) ← create_pr N F at_.owner at_.repo (pull_of plan branch base)
    add_labels N F at_.owner at_.repo number (label_sentinel ∷ label_automated ∷ [])
    pure N (some (number, url))

  abbrev pub branch_name : String → ℤ → String
  branch_name slug n = "sentinel/" +s slug +s "-" +s F.decimal n

  -- Where no pull request with the title is open.
  unfoldable pub propose : Plan D.Doc → String → Exec N (Option (ℤ × String))
  propose plan base = do
    n ← next_branch_n N F at_.owner at_.repo plan.slug
    (base_sha, blob_sha) ← prepare_commit base plan.file_path
    continue N plan.edit (publish plan base (branch_name plan.slug n) base_sha blob_sha)

  -- The number and the URL of the pull request; none where one is open or the edit is a no-op.
  unfoldable pub open_pull : Plan D.Doc → Exec N (Option (ℤ × String))
  open_pull plan = do
    base ← resolve_base
    is_open ← has_open_pr N F at_.owner at_.repo plan.title
    if is_open then pure N none else propose plan base

  abbrev pub url_of : Option (ℤ × String) → Exec N String
  url_of none = pure N ""
  url_of (some (number, url)) = pure N url

  unfoldable pub chain_plan : Addresses → Chain → List FlaggedEndpoint → Plan D.Doc
  chain_plan A chain dead = record {
    title = "[sentinel] remove dead endpoints: " +s chain.name;
    slug = chain.name;
    file_path = chain.name +s "/chain.json";
    commit_msg = "sentinel: remove dead endpoints from " +s chain.name +s "/chain.json";
    text = build_pr_body F A chain dead;
    edit = edit_chain_json D chain.name dead;
  }

  -- `OpenChainPR`.
  unfoldable pub open_chain_pr : Addresses → Chain → List FlaggedEndpoint → Exec N String
  unfolding chain_plan
  open_chain_pr A chain dead =
      wrapped N "OpenChainPR: " (open_pull (chain_plan A chain dead)) >>= url_of

  unfoldable pub hash_plan : String → List HashFix → Plan D.Doc
  hash_plan chain_name fixes = record {
    title = "[sentinel] fix IBC denom hash: " +s chain_name;
    slug = chain_name +s "-hash";
    file_path = chain_name +s "/assetlist.json";
    commit_msg = "sentinel: fix IBC denom hashes in " +s chain_name +s "/assetlist.json";
    text = build_hash_mismatch_pr_body chain_name fixes;
    edit = edit_asset_list_json D chain_name fixes;
  }

  -- `OpenHashPR`.
  unfoldable pub open_hash_pr : String → List HashFix → Exec N String
  unfolding hash_plan
  open_hash_pr chain_name fixes =
      wrapped N "OpenHashPR: " (open_pull (hash_plan chain_name fixes)) >>= url_of

  unfoldable pub status_plan : String → StatusPrEvidence → Plan D.Doc
  status_plan chain_name evidence = record {
    title = "[sentinel] mark " +s chain_name +s " as killed";
    slug = chain_name +s "-status";
    file_path = chain_name +s "/chain.json";
    commit_msg = "sentinel: mark " +s chain_name +s " as killed";
    text = build_status_pr_body F chain_name evidence;
    edit = edit_chain_status D chain_name;
  }

  -- An action whose error is only logged.
  unfoldable pub attempt {ℓ} : {A : Type ℓ} → Exec N A → Exec N (Unit {0})
  attempt m s = (ok tt, (m s).1)

  abbrev pub comment_on : String → ℤ → Option ℤ → Exec N (Unit {0})
  comment_on chain status_pr_num none = pure N tt
  comment_on chain status_pr_num (some number) =
      add_comment N F at_.owner at_.repo number (build_superseded_comment F chain status_pr_num)

  -- The body of the loop of `notifySuperseded`.
  unfoldable pub notify_title : String → ℤ → String → Exec N (Unit {0})
  notify_title chain status_pr_num title =
      attempt (find_open_pr N F at_.owner at_.repo title >>= comment_on chain status_pr_num)

  -- `notifySuperseded`.
  unfoldable pub notify_superseded : String → ℤ → Exec N (Unit {0})
  notify_superseded chain status_pr_num = do
    notify_title chain status_pr_num ("[sentinel] remove dead endpoints: " +s chain)
    notify_title chain status_pr_num ("[sentinel] fix IBC denom hash: " +s chain)

  abbrev pub announce : String → Option (ℤ × String) → Exec N String
  announce chain none = pure N ""
  announce chain (some (number, url)) = notify_superseded chain number >> pure N url

  -- `OpenStatusPR`.
  unfoldable pub open_status_pr : String → StatusPrEvidence → Exec N String
  unfolding status_plan
  open_status_pr chain_name evidence =
      wrapped N "OpenStatusPR: " (open_pull (status_plan chain_name evidence))
      >>= announce chain_name
