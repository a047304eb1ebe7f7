-- ===== src/Github/Client.antt =====
-- internal/github/client.go: the methods of `Client`.
use chain_registry_sentinel.Base.{
  ℕ, String, Bool, Option, none, some, List, [], ◌∷◌, ◌==◌, ◌||◌, if◌then◌else◌,
}
use chain_registry_sentinel.Base.Int.{ℤ, pos, ltb_ℤ, increment}
use chain_registry_sentinel.Base.Text.{◌+s◌, trim_prefix, without}
use chain_registry_sentinel.Checks.Error.{errorf, wrap}
use chain_registry_sentinel.Github.Outcome.{Outcome, ok, err}
use chain_registry_sentinel.Github.Call.{
  get, post, put, no_body, fields, label_list, Request, Network, Formats, Exec, pure, raise,
  wrapped, call, no_destination, ◌>>=◌,
}

abbrev pub repo_path : String → String → String
repo_path owner repo = "/repos/" +s owner +s "/" +s repo

abbrev pub get_request : String → Request
get_request path = record { method = get; path = path; body = no_body }

-- `strconv.Atoi` of a suffix, against the maximum so far.
abbrev pub larger : Option ℤ → ℤ → ℤ
larger none max_n = max_n
larger (some n) max_n = if ltb_ℤ max_n n then n else max_n

-- A commit of one file: what `CommitFile` takes, but for the repository.
pub record Commit : Type 0 where
  pub path : String
  pub branch : String
  pub message : String
  pub blob_sha : String
  pub content : String

-- A pull request, as `CreatePR` takes it.
pub record Pull : Type 0 where
  pub title : String
  pub text : String
  pub head : String
  pub base : String

abbrev pub first {ℓ} : {A : Type ℓ} → List A → Option A
first [] = none
first (x ∷ _) = some x

module _ (N : Network) (F : Formats) where
  -- `fmt.Errorf("github.<name>: unexpected status %d", status)`.
  abbrev unexpected {ℓ} : {A : Type ℓ} → String → ℕ → Exec N A
  unexpected name status =
      raise N (errorf (name +s ": unexpected status " +s F.decimal (pos status)))

  -- `Client.DefaultBranch`.
  unfoldable pub default_branch : String → String → Exec N String
  default_branch owner repo = do
    (status, branch) ←
        wrapped N "github.DefaultBranch: "
          (call N N.read_default_branch "" (get_request (repo_path owner repo)))
    if status == 200 then pure N branch else unexpected "github.DefaultBranch" status

  -- `Client.branchSHA`.
  unfoldable pub branch_sha : String → String → String → Exec N String
  branch_sha owner repo branch = do
    (status, sha) ← wrapped N "github.branchSHA: " (
        call N N.read_object_sha ""
          (get_request (repo_path owner repo +s "/git/ref/heads/" +s branch)))
    if status == 200 then pure N sha else unexpected "github.branchSHA" status

  -- The largest number among the suffixes of the references, from `max_n` on.
  unfoldable pub largest : String → List String → ℤ → ℤ
  largest prefix [] max_n = max_n
  largest prefix (r ∷ rs) max_n = largest prefix rs (larger (F.atoi (trim_prefix r prefix)) max_n)

  unfoldable pub branch_prefix : String → String
  branch_prefix chain = "refs/heads/sentinel/" +s chain +s "-"

  -- `Client.NextBranchN`.
  unfoldable pub next_branch_n : String → String → String → Exec N ℤ
  unfolding largest branch_prefix
  next_branch_n owner repo chain = do
    (status, refs) ← wrapped N "github.NextBranchN: " (
        call N N.read_refs [] (
          get_request
            (repo_path owner repo +s "/git/matching-refs/heads/sentinel/" +s chain +s "-")))
    if status == 200
        then pure N (increment (largest (branch_prefix chain) refs (pos 0)))
        else unexpected "github.NextBranchN" status

  -- The search of `HasOpenPR` and `FindOpenPR`.
  abbrev pub search_request : String → String → String → Request
  search_request owner repo title_fragment = get_request (
      "/search/issues?q="
      +s F.query_escape (
          "repo:"
          +s owner
          +s "/"
          +s repo
          +s " is:pr is:open label:sentinel "
          +s F.quote title_fragment
          +s " in:title"))

  -- `Client.HasOpenPR`.
  unfoldable pub has_open_pr : String → String → String → Exec N Bool
  has_open_pr owner repo title_fragment = do
    (status, total) ←
        wrapped N "github.HasOpenPR: "
          (call N N.read_total_count (pos 0) (search_request owner repo title_fragment))
    if status == 200 then pure N (ltb_ℤ (pos 0) total) else unexpected "github.HasOpenPR" status

  -- `Client.FindOpenPR`; `none` is `found=false`.
  unfoldable pub find_open_pr : String → String → String → Exec N (Option ℤ)
  find_open_pr owner repo title_fragment = do
    (status, items) ←
        wrapped N "github.FindOpenPR: "
          (call N N.read_item_numbers [] (search_request owner repo title_fragment))
    if status == 200 then pure N (first items) else unexpected "github.FindOpenPR" status

  -- A request whose response body is discarded, and the check of its status.
  abbrev pub comment_request : String → String → ℤ → String → Request
  comment_request owner repo number text = record {
    method = post;
    path = repo_path owner repo +s "/issues/" +s F.decimal number +s "/comments";
    body = fields (("body", text) ∷ []);
  }

  -- `Client.AddComment`.
  unfoldable pub add_comment : String → String → ℤ → String → Exec N (Unit {0})
  add_comment owner repo number text = do
    (status, _) ←
        wrapped N "github.AddComment: "
          (call N (no_destination N) tt (comment_request owner repo number text))
    if status == 201 then pure N tt else unexpected "github.AddComment" status

  -- The content without its line breaks, decoded.
  abbrev pub decode_file {ℓ} : {A : Type ℓ} → A → Outcome String → Exec N (String × A)
  decode_file sha (ok content) = pure N (content, sha)
  decode_file sha (err e) = raise N (wrap "github.GetFileSHA: decode content: " e)

  -- `Client.GetFileSHA`.
  unfoldable pub get_file_sha : String → String → String → String → Exec N (String × String)
  get_file_sha owner repo path branch = do
    (status, file) ← wrapped N "github.GetFileSHA: " (
        call N N.read_content ("", "")
          (get_request (repo_path owner repo +s "/contents/" +s path +s "?ref=" +s branch)))
    if status == 200
        then decode_file file.1 (F.base64_decode (without file.0 b'\n'))
        else unexpected "github.GetFileSHA" status

  abbrev pub branch_request : String → String → String → String → Request
  branch_request owner repo branch from_sha = record {
    method = post;
    path = repo_path owner repo +s "/git/refs";
    body = fields (("ref", "refs/heads/" +s branch) ∷ ("sha", from_sha) ∷ []);
  }

  -- `Client.CreateBranch`.
  unfoldable pub create_branch : String → String → String → String → Exec N (Unit {0})
  create_branch owner repo branch from_sha = do
    (status, _) ←
        wrapped N "github.CreateBranch: "
          (call N (no_destination N) tt (branch_request owner repo branch from_sha))
    if status == 201 then pure N tt else unexpected "github.CreateBranch" status

  abbrev pub commit_request : String → String → Commit → Request
  commit_request owner repo c = record {
    method = put;
    path = repo_path owner repo +s "/contents/" +s c.path;
    body = fields (
        ("message", c.message)
        ∷ ("content", F.base64_encode c.content)
        ∷ ("branch", c.branch)
        ∷ ("sha", c.blob_sha)
        ∷ []);
  }

  -- `Client.CommitFile`.
  unfoldable pub commit_file : String → String → Commit → Exec N (Unit {0})
  commit_file owner repo c = do
    (status, _) ←
        wrapped N "github.CommitFile: " (call N (no_destination N) tt (commit_request owner repo c))
    if status == 200 || status == 201 then pure N tt else unexpected "github.CommitFile" status

  abbrev pub pull_request : String → String → Pull → Request
  pull_request owner repo p = record {
    method = post;
    path = repo_path owner repo +s "/pulls";
    body =
        fields (("title", p.title) ∷ ("body", p.text) ∷ ("head", p.head) ∷ ("base", p.base) ∷ []);
  }

  -- `Client.CreatePR`: the number and the URL.
  unfoldable pub create_pr : String → String → Pull → Exec N (ℤ × String)
  create_pr owner repo p = do
    (status, made) ←
        wrapped N "github.CreatePR: " (call N N.read_pull (pos 0, "") (pull_request owner repo p))
    if status == 201 then pure N made else unexpected "github.CreatePR" status

  abbrev pub label_request : String → String → String → String → Request
  label_request owner repo name color = record {
    method = post;
    path = repo_path owner repo +s "/labels";
    body = fields (("name", name) ∷ ("color", color) ∷ []);
  }

  -- `Client.EnsureLabel`, behind the answer to its GET.
  unfoldable pub create_label : String → String → String → String → Exec N (Unit {0})
  create_label owner repo name color = do
    (status, _) ←
        wrapped N "github.EnsureLabel: "
          (call N (no_destination N) tt (label_request owner repo name color))
    if status == 201 then pure N tt else unexpected "github.EnsureLabel" status

  unfoldable pub ensure_label : String → String → String → String → Exec N (Unit {0})
  ensure_label owner repo name color = do
    (status, _) ←
        wrapped N "github.EnsureLabel: "
          (call N (no_destination N) tt (get_request (repo_path owner repo +s "/labels/" +s name)))
    if status == 200
        then pure N tt
        else if status == 404
        then create_label owner repo name color
        else unexpected "github.EnsureLabel" status

  abbrev pub add_labels_request : String → String → ℤ → List String → Request
  add_labels_request owner repo number labels = record {
    method = post;
    path = repo_path owner repo +s "/issues/" +s F.decimal number +s "/labels";
    body = label_list labels;
  }

  -- `Client.AddLabels`.
  unfoldable pub add_labels : String → String → ℤ → List String → Exec N (Unit {0})
  add_labels owner repo number labels = do
    (status, _) ←
        wrapped N "github.AddLabels: "
          (call N (no_destination N) tt (add_labels_request owner repo number labels))
    if status == 200 then pure N tt else unexpected "github.AddLabels" status
