-- ===== src/Github/Open/Phases.antt =====
-- The order of the requests that open a pull request (internal/github/pr.go), as steps.
use chain_registry_sentinel.Base.{
  ℕ, ◌≡◌, String, Bool, ◌||◌, ◌==◌, if◌then◌else◌, some, List, [], ◌∷◌, ◌++◌,
}
use chain_registry_sentinel.Base.Int.{ℤ}
use chain_registry_sentinel.Checks.Error.{GoError}
use chain_registry_sentinel.Github.Outcome.{Outcome, ok, err}
use chain_registry_sentinel.Github.Call.{
  Answer, not_built, not_answered, answered, Request, Network, Formats, Session, Exec,
}
use chain_registry_sentinel.Github.Client.{
  Commit, Pull, get_request, comment_request, branch_request, commit_request, pull_request,
  label_request, add_labels_request,
}
use chain_registry_sentinel.Github.Documents.{Documents}
use chain_registry_sentinel.Github.Open.{Place, Plan}

-- `refused` is the phase behind a request that GitHub did not grant; a pull request goes with the
-- number and the URL that GitHub gave it.
pub data Phase : Type 0 where
  idle refused : Phase
  branched committed : String → Phase
  pulled labelled : ℤ × String → Phase

-- The phase behind an answer: that one at a right status, and `refused` at any other, or at none.
abbrev pub granted_at : {B : Type 0} → (ℕ → Bool) → Phase → Answer B → Phase
granted_at right q (not_built e) = refused
granted_at right q (not_answered e) = refused
granted_at right q (answered status body) = if right status then q else refused

-- The pull request that was read from an answer.
abbrev pub made_by : Outcome (ℤ × String) → Phase
made_by (ok made) = pulled made
made_by (err e) = refused

abbrev pub pulled_at : {B : Type 0} → (B → Outcome (ℤ × String)) → Answer B → Phase
pulled_at read_pull (not_built e) = refused
pulled_at read_pull (not_answered e) = refused
pulled_at read_pull (answered status body) =
    if status == 201 then made_by (read_pull body) else refused

module _ (N : Network) (F : Formats) (D : Documents) (at_ : Place) (plan : Plan D.Doc) where
  -- Reading is always right. A branch is made once, at status 201; then the file is committed to it
  -- with the content of the edit, at 200 or 201; the pull request is for that branch, at 201; and it
  -- gets the two labels, by its number, at 200. Only then comes a comment. Nothing but reading comes
  -- behind another status.
  pub data Step : Phase → Request → Answer N.Body → Phase → Type 0 where
    read : {p : Phase} {a : Answer N.Body} (path : String) → Step p (get_request path) a p
    branch :
        {a : Answer N.Body} {q : Phase} (b sha : String)
        → q ≡ granted_at (λ status. status == 201) (branched b) a
        → Step idle (branch_request N F at_.owner at_.repo b sha) a q
    commit :
        {b : String} {a : Answer N.Body} {q : Phase} (c : Commit) (d : D.Doc)
        → c.branch ≡ b
        → c.path ≡ plan.file_path
        → plan.edit ≡ ok (some d)
        → c.content ≡ D.bytes d
        → q ≡ granted_at (λ status. status == 200 || status == 201) (committed b) a
        → Step (branched b) (commit_request N F at_.owner at_.repo c) a q
    label :
        {b : String} {a : Answer N.Body} {q : Phase} (name color : String)
        → q ≡ granted_at (λ status. status == 201) (committed b) a
        → Step (committed b) (label_request N F at_.owner at_.repo name color) a q
    pull :
        {b : String} {a : Answer N.Body} {q : Phase} (p : Pull)
        → p.head ≡ b
        → p.title ≡ plan.title
        → q ≡ pulled_at N.read_pull a
        → Step (committed b) (pull_request N F at_.owner at_.repo p) a q
    tag :
        {made : ℤ × String} {a : Answer N.Body} {q : Phase} (labels : List String)
        → labels ≡ "sentinel" ∷ "automated" ∷ []
        → q ≡ granted_at (λ status. status == 200) (labelled made) a
        → Step (pulled made) (add_labels_request N F at_.owner at_.repo made.0 labels) a q
    comment :
        {made : ℤ × String} {a : Answer N.Body} (number : ℤ) (text : String)
        → Step
            (labelled made)
            (comment_request N F at_.owner at_.repo number text)
            a
            (labelled made)

  -- The requests of a run from a state of the network on, the last one first, each with the answer that
  -- the network gave it; one that could not be built was not sent.
  pub data Log (p : Phase) (w : N.State) : List Request → Phase → N.State → Type 0 where
    start : Log p w [] p w
    next :
        {rs : List Request} {q q' : Phase} {v v' : N.State} {a : Answer N.Body} (r : Request)
        → Log p w rs q v
        → N.send v r ≡ (a, v')
        → Step q r a q'
        → Log p w (r ∷ rs) q' v'
    unsent :
        {rs : List Request} {q : Phase} {v v' : N.State} (r : Request) (e : GoError)
        → Log p w rs q v
        → N.send v r ≡ (not_built e, v')
        → Log p w rs q v'

  pub Log-append :
      {p q : Phase} {w v : N.State} {rs ts : List Request} {t : Phase} {u : N.State}
      → Log p w rs q v
      → Log q v ts t u
      → Log p w (ts ++ rs) t u
  Log-append l start = l
  Log-append l (next r m e s) = next r (Log-append l m) e s
  Log-append l (unsent r x m e) = unsent r x (Log-append l m) e

  abbrev pub Ends {ℓ} : {A : Type ℓ} → (A → Phase) → Outcome A → Phase → Type 0
  Ends post (ok a) q = q ≡ post a
  Ends post (err e) q = Unit

  -- What a run sends is in order from the phase on, whatever the network answers, and a run that
  -- does not fail ends in the phase that its value asks for.
  pub record Ran {ℓ} {A : Type ℓ} (p : Phase) (post : A → Phase) (s : Session N)
      (done : Outcome A × Session N) : Type 0 where
    pub added : List Request
    pub phase : Phase
    pub sends : done.1.sent ≡ added ++ s.sent
    pub log : Log p s.network added phase done.1.network
    pub ends : Ends post done.0 phase

  abbrev pub Runs {ℓ} : {A : Type ℓ} → Phase → (A → Phase) → Exec N A → Type 0
  Runs p post m = (s : Session N) → Ran p post s (m s)
