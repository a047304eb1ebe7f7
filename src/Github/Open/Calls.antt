-- ===== src/Github/Open/Calls.antt =====
-- The methods of `Client` (internal/github/client.go) as runs of steps.
use chain_registry_sentinel.Base.{
  ℕ, ◌≡◌, refl, String, Bool, true, false, ◌||◌, ◌==◌, some, List, [], ◌∷◌, if◌then◌else◌,
}
use chain_registry_sentinel.Base.Int.{ℤ}
use chain_registry_sentinel.Checks.Error.{GoError}
use chain_registry_sentinel.Github.Outcome.{Outcome, ok, err}
use chain_registry_sentinel.Github.Call.{
  Answer, no_destination, Request, Network, Formats, Exec, pure, raise, wrapped, call, ◌>>=◌,
}
use chain_registry_sentinel.Github.Client
use chain_registry_sentinel.Github.Client.{get_request, Pull, Commit}
use chain_registry_sentinel.Github.Documents.{Documents}
use chain_registry_sentinel.Github.Open.{Place, Plan}
use chain_registry_sentinel.Github.Open.Phases.{
  Phase, idle, refused, granted_at, pulled_at, branched, committed, pulled, labelled, Step, read,
  branch, commit, label, pull, tag, comment, Runs,
}
use chain_registry_sentinel.Github.Open.Rules.{
  pure-Runs, raise-Runs, bind-Runs, wrapped-Runs, if-Runs, call-Runs, Leads, always-Leads,
  granted-Leads, pulled-Leads,
}

module _ (N : Network) (F : Formats) (D : Documents) (at_ : Place) (plan : Plan D.Doc) where
  -- A call, and what comes of its value.
  checked-Runs {ℓ κ} :
      {A : Type ℓ} {B : Type κ} {p : Phase} {wanted : B → Phase} (post : ℕ × A → Phase)
      (target : Answer N.Body → Phase) (prefix : String) (decode : N.Body → Outcome A)
      (zero_value : A) (r : Request) (f : ℕ × A → Exec N B)
      → ((a : Answer N.Body) → Step N F D at_ plan p r a (target a))
      → ((a : Answer N.Body) → Leads N F D at_ plan post decode zero_value a (target a))
      → ((x : ℕ × A) → Runs N F D at_ plan (post x) wanted (f x))
      → Runs N F D at_ plan p wanted (wrapped N prefix (call N decode zero_value r) >>= f)
  checked-Runs post target prefix decode zero_value r f step leads h =
      bind-Runs N F D at_ plan post _ f
        (wrapped-Runs N F D at_ plan prefix _
          (call-Runs N F D at_ plan post target decode zero_value r step leads))
        h

  -- A request that reads.
  reads-Runs {ℓ κ} :
      {A : Type ℓ} {B : Type κ} {p : Phase} (prefix : String) (decode : N.Body → Outcome A)
      (zero_value : A) (path : String) (f : ℕ × A → Exec N B)
      → ((x : ℕ × A) → Runs N F D at_ plan p (λ _. p) (f x))
      → Runs N F D at_ plan p
          (λ _. p)
          (wrapped N prefix (call N decode zero_value (get_request path)) >>= f)
  reads-Runs {p} prefix decode zero_value path f h =
      checked-Runs (λ _. p) (λ _. p) prefix decode zero_value _ f (λ a. read path)
        (always-Leads N F D at_ plan p decode zero_value) h

  judged-Runs {ℓ} :
      {B : Type ℓ} {q : Phase} (b : Bool) (a : B) (e : GoError)
      → Runs N F D at_ plan q (λ _. q) (if b then pure N a else raise N e)
  judged-Runs b a e =
      if-Runs N F D at_ plan b (pure-Runs N F D at_ plan a refl) (raise-Runs N F D at_ plan e)

  -- The value where the status is right, in the phase that it leads to.
  granted-Runs {ℓ} :
      {B : Type ℓ} {q : Phase} {wanted : B → Phase} (b : Bool) (a : B) (e : GoError)
      → q ≡ wanted a
      → Runs N F D at_ plan (if b then q else refused) wanted (if b then pure N a else raise N e)
  granted-Runs true a e h = pure-Runs N F D at_ plan a h
  granted-Runs false a e h = raise-Runs N F D at_ plan e

  -- A request that changes something, and needs one of the right statuses.
  grants-Runs :
      {p q : Phase} (right : ℕ → Bool) (prefix : String) (r : Request) (e : ℕ → GoError)
      → ((a : Answer N.Body) → Step N F D at_ plan p r a (granted_at right q a))
      → Runs N F D at_ plan p
          (λ (_ : Unit {0}). q)
          (wrapped N prefix (call N (no_destination N) tt r) >>= λ x.
            if right x.0 then pure N tt else raise N (e x.0))
  grants-Runs {q} right prefix r e step =
      checked-Runs (λ x. if right x.0 then q else refused) (granted_at right q) prefix _ tt r _ step
        (granted-Leads N F D at_ plan right q (no_destination N) tt)
        (λ x. granted-Runs (right x.0) tt (e x.0) refl)

  pub default_branch-Runs :
      {p : Phase} → Runs N F D at_ plan p (λ _. p) (Client.default_branch N F at_.owner at_.repo)
  unfolding Client.default_branch
  default_branch-Runs = reads-Runs _ _ _ _ _ (λ x. judged-Runs (x.0 == 200) _ _)

  pub branch_sha-Runs :
      {p : Phase} (b : String)
      → Runs N F D at_ plan p (λ _. p) (Client.branch_sha N F at_.owner at_.repo b)
  unfolding Client.branch_sha
  branch_sha-Runs b = reads-Runs _ _ _ _ _ (λ x. judged-Runs (x.0 == 200) _ _)

  pub next_branch_n-Runs :
      {p : Phase} (slug : String)
      → Runs N F D at_ plan p (λ _. p) (Client.next_branch_n N F at_.owner at_.repo slug)
  unfolding Client.next_branch_n
  next_branch_n-Runs slug = reads-Runs _ _ _ _ _ (λ x. judged-Runs (x.0 == 200) _ _)

  pub has_open_pr-Runs :
      {p : Phase} (title : String)
      → Runs N F D at_ plan p (λ _. p) (Client.has_open_pr N F at_.owner at_.repo title)
  unfolding Client.has_open_pr
  has_open_pr-Runs title = reads-Runs _ _ _ _ _ (λ x. judged-Runs (x.0 == 200) _ _)

  pub find_open_pr-Runs :
      {p : Phase} (title : String)
      → Runs N F D at_ plan p (λ _. p) (Client.find_open_pr N F at_.owner at_.repo title)
  unfolding Client.find_open_pr
  find_open_pr-Runs title = reads-Runs _ _ _ _ _ (λ x. judged-Runs (x.0 == 200) _ _)

  decode_file-Runs {ℓ} :
      {A : Type ℓ} {p : Phase} (sha : A) (o : Outcome String)
      → Runs N F D at_ plan p (λ _. p) (Client.decode_file N F sha o)
  decode_file-Runs sha (ok content) = pure-Runs N F D at_ plan (content, sha) refl
  decode_file-Runs sha (err e) = raise-Runs N F D at_ plan _

  pub get_file_sha-Runs :
      {p : Phase} (path b : String)
      → Runs N F D at_ plan p (λ _. p) (Client.get_file_sha N F at_.owner at_.repo path b)
  unfolding Client.get_file_sha
  get_file_sha-Runs path b = reads-Runs _ _ _ _ _ (λ x.
      if-Runs N F D at_ plan (x.0 == 200) (decode_file-Runs _ _) (raise-Runs N F D at_ plan _))

  pub add_comment-Runs :
      {made : ℤ × String} (number : ℤ) (text : String)
      → Runs N F D at_ plan
          (labelled made)
          (λ _. labelled made)
          (Client.add_comment N F at_.owner at_.repo number text)
  unfolding Client.add_comment
  add_comment-Runs {made} number text =
      checked-Runs (λ _. labelled made) (λ _. labelled made) _ (no_destination N) tt _ _
        (λ a. comment number text)
        (always-Leads N F D at_ plan (labelled made) (no_destination N) tt)
        (λ x. judged-Runs (x.0 == 201) _ _)

  pub create_branch-Runs :
      (b sha : String)
      → Runs N F D at_ plan idle
          (λ _. branched b)
          (Client.create_branch N F at_.owner at_.repo b sha)
  unfolding Client.create_branch
  create_branch-Runs b sha = grants-Runs (λ status. status == 201) _ _ _ (λ a. branch b sha refl)

  pub commit_file-Runs :
      {b : String} (c : Commit) (d : D.Doc)
      → c.branch ≡ b
      → c.path ≡ plan.file_path
      → plan.edit ≡ ok (some d)
      → c.content ≡ D.bytes d
      → Runs N F D at_ plan
          (branched b)
          (λ _. committed b)
          (Client.commit_file N F at_.owner at_.repo c)
  unfolding Client.commit_file
  commit_file-Runs c d on path edit content =
      grants-Runs (λ status. status == 200 || status == 201) _ _ _
        (λ a. commit c d on path edit content refl)

  pub create_pr-Runs :
      {b : String} (p : Pull)
      → p.head ≡ b
      → p.title ≡ plan.title
      → Runs N F D at_ plan
          (committed b)
          (λ made. pulled made)
          (Client.create_pr N F at_.owner at_.repo p)
  unfolding Client.create_pr
  create_pr-Runs p head title =
      checked-Runs (λ x. if x.0 == 201 then pulled x.1 else refused) (pulled_at N.read_pull) _ _ _ _
        _ (λ a. pull p head title refl) (pulled-Leads N F D at_ plan _)
        (λ x. granted-Runs (x.0 == 201) x.1 _ refl)

  create_label-Runs :
      {b : String} (name color : String)
      → Runs N F D at_ plan
          (committed b)
          (λ _. committed b)
          (Client.create_label N F at_.owner at_.repo name color)
  unfolding Client.create_label
  create_label-Runs name color =
      grants-Runs (λ status. status == 201) _ _ _ (λ a. label name color refl)

  pub ensure_label-Runs :
      {b : String} (name color : String)
      → Runs N F D at_ plan
          (committed b)
          (λ _. committed b)
          (Client.ensure_label N F at_.owner at_.repo name color)
  unfolding Client.ensure_label
  ensure_label-Runs name color = reads-Runs _ _ _ _ _ (λ x.
      if-Runs N F D at_ plan (x.0 == 200) (pure-Runs N F D at_ plan tt refl) (
        if-Runs N F D at_ plan (x.0 == 404) (create_label-Runs name color)
          (raise-Runs N F D at_ plan _)))

  pub add_labels-Runs :
      (made : ℤ × String) (labels : List String)
      → labels ≡ "sentinel" ∷ "automated" ∷ []
      → Runs N F D at_ plan
          (pulled made)
          (λ _. labelled made)
          (Client.add_labels N F at_.owner at_.repo made.0 labels)
  unfolding Client.add_labels
  add_labels-Runs made labels e =
      grants-Runs (λ status. status == 200) _ _ _ (λ a. tag labels e refl)
