-- ===== src/Github/Open/Results.antt =====
-- What `OpenChainPR`, `OpenHashPR` and `OpenStatusPR` (internal/github/pr.go) return, and what they
-- have sent by then.
use chain_registry_sentinel.Base.{
  ◌≡◌, refl, sym, ◌⊎◌, inl, inr, String, Option, none, some, List, ◌++◌, subst,
}
use chain_registry_sentinel.Base.Int.{ℤ}
use chain_registry_sentinel.Registry.{Chain}
use chain_registry_sentinel.Checks.GrpcTarget.{Addresses}
use chain_registry_sentinel.Sentinel.Flows.Endpoint.{FlaggedEndpoint}
use chain_registry_sentinel.Github.Outcome.{Outcome, ok, err}
use chain_registry_sentinel.Github.Call.{
  Request, Network, Formats, Session, Exec, pure, continue, wrapped, ◌>>=◌,
}
use chain_registry_sentinel.Github.Documents.{Documents}
use chain_registry_sentinel.Github.Body.{HashFix, StatusPrEvidence}
use chain_registry_sentinel.Github.Open.{
  Place, Plan, open_pull, chain_plan, hash_plan, status_plan, url_of, announce, notify_title,
  notify_superseded, attempt, comment_on, open_chain_pr, open_hash_pr, open_status_pr,
}
use chain_registry_sentinel.Github.Open.Phases.{Phase, idle, labelled, Log, Ran, Runs}
use chain_registry_sentinel.Github.Open.Rules.{
  pure-Runs, bind-Runs, then-Ran, wrapped-Runs, attempt-Runs,
}
use chain_registry_sentinel.Github.Open.Calls.{find_open_pr-Runs, add_comment-Runs}
use chain_registry_sentinel.Github.Open.Protocol.{reached, open_pull-Runs}

-- A URL is that of a pull request that GitHub made and labelled, or it is "", and the run only read.
abbrev pub Concludes : Outcome String → Phase → Type 0
Concludes (ok url) q = ((number : ℤ) × (q ≡ labelled (number, url))) ⊎ (url ≡ "") × (q ≡ idle)
Concludes (err e) q = Unit

module _ (N : Network) (F : Formats) (D : Documents) (at_ : Place) (plan : Plan D.Doc) where
  pub record Concluded (s : Session N) (done : Outcome String × Session N) : Type 0 where
    pub added : List Request
    pub phase : Phase
    pub sends : done.1.sent ≡ added ++ s.sent
    pub log : Log N F D at_ plan idle s.network added phase done.1.network
    pub concludes : Concludes done.0 phase

  Ran-Concluded :
      {post : String → Phase} (s : Session N) (done : Outcome String × Session N)
      → Ran N F D at_ plan idle post s done
      → ((url : String) → done.0 ≡ ok url → Concludes (ok url) (post url))
      → Concluded s done
  Ran-Concluded s (ok url, s') r h = record {
    added = r.added;
    phase = r.phase;
    sends = r.sends;
    log = r.log;
    concludes = subst (Concludes (ok url)) (sym r.ends) (h url refl);
  }
  Ran-Concluded s (err e, s') r h = record {
    added = r.added;
    phase = r.phase;
    sends = r.sends;
    log = r.log;
    concludes = tt;
  }

  conclude :
      (g : Option (ℤ × String) → Exec N String) (s : Session N)
      (done : Outcome (Option (ℤ × String)) × Session N)
      → g none ≡ pure N ""
      → ((made : ℤ × String)
          → Runs N F D at_ plan (labelled made) (λ url. labelled (made.0, url)) (g (some made)))
      → Ran N F D at_ plan idle reached s done
      → Concluded s (continue N done.0 g done.1)
  conclude g s (ok none, s') nothing made r =
      subst (λ t. Concluded s (t s')) (sym nothing)
        (record {
          added = r.added;
          phase = r.phase;
          sends = r.sends;
          log = r.log;
          concludes = inr (refl, r.ends);
        })
  conclude g s (ok (some x), s') nothing made r =
      Ran-Concluded s (g (some x) s')
        (then-Ran N F D at_ plan s s' (some x) (g (some x)) r (made x)) (λ url e. inl (x.0, refl))
  conclude g s (err e, s') nothing made r = record {
    added = r.added;
    phase = r.phase;
    sends = r.sends;
    log = r.log;
    concludes = tt;
  }

  opened :
      (prefix : String) (g : Option (ℤ × String) → Exec N String)
      → g none ≡ pure N ""
      → ((made : ℤ × String)
          → Runs N F D at_ plan (labelled made) (λ url. labelled (made.0, url)) (g (some made)))
      → (s : Session N) → Concluded s ((wrapped N prefix (open_pull N F D at_ plan) >>= g) s)
  unfolding ◌>>=◌
  opened prefix g nothing made s =
      conclude g s _ nothing made
        (wrapped-Runs N F D at_ plan prefix _ (open_pull-Runs N F D at_ plan) s)

  comment_on-Runs :
      {made : ℤ × String} (chain : String) (number : ℤ) (found : Option ℤ)
      → Runs N F D at_ plan
          (labelled made)
          (λ _. labelled made)
          (comment_on N F D at_ chain number found)
  comment_on-Runs chain number none = pure-Runs N F D at_ plan tt refl
  comment_on-Runs chain number (some open_number) = add_comment-Runs N F D at_ plan open_number _

  notify_title-Runs :
      {made : ℤ × String} (chain : String) (number : ℤ) (title : String)
      → Runs N F D at_ plan
          (labelled made)
          (λ _. labelled made)
          (notify_title N F D at_ chain number title)
  unfolding notify_title
  notify_title-Runs {made} chain number title =
      attempt-Runs N F D at_ plan {post = λ _. labelled made} _ (
        bind-Runs N F D at_ plan (λ _. labelled made) _ _ (find_open_pr-Runs N F D at_ plan title)
          (comment_on-Runs chain number))

  announce-Runs :
      (chain : String) (made : ℤ × String)
      → Runs N F D at_ plan
          (labelled made)
          (λ url. labelled (made.0, url))
          (announce N F D at_ chain (some made))
  unfolding notify_superseded
  announce-Runs chain made =
      bind-Runs N F D at_ plan (λ _. labelled made) _ _
        (bind-Runs N F D at_ plan (λ _. labelled made) _ _ (notify_title-Runs chain made.0 _)
          (λ _. notify_title-Runs chain made.0 _))
        (λ _. pure-Runs N F D at_ plan made.1 refl)

module _ (N : Network) (F : Formats) (D : Documents) (at_ : Place) where
  announce-url_of :
      (chain : String) (o : Outcome (Option (ℤ × String))) (s : Session N)
      → (continue N o (announce N F D at_ chain) s).0 ≡ (continue N o (url_of N F D at_) s).0
  unfolding notify_superseded notify_title attempt ◌>>=◌
  announce-url_of chain (ok none) s = refl
  announce-url_of chain (ok (some made)) s = refl
  announce-url_of chain (err e) s = refl

  announced :
      (chain : String) (m : Exec N (Option (ℤ × String))) (s : Session N)
      → ((m >>= announce N F D at_ chain) s).0 ≡ ((m >>= url_of N F D at_) s).0
  unfolding ◌>>=◌
  announced chain m s = let (o, s') = m s in announce-url_of chain o s'

  -- Whatever GitHub answers, and whether or not an answer is an error: the requests of an endpoint
  -- removal and their answers are in the order of `Step`. Where it returns no error, either it returns
  -- the URL that GitHub gave for the pull request, which it made at status 201 and labelled at 200, or
  -- it returns "" and has only read.
  pub open_chain_pr-Concluded :
      (A : Addresses) (chain : Chain) (dead : List FlaggedEndpoint) (s : Session N)
      → Concluded N F D at_
          (chain_plan N F D at_ A chain dead)
          s
          (open_chain_pr N F D at_ A chain dead s)
  unfolding open_chain_pr
  open_chain_pr-Concluded A chain dead =
      opened N F D at_ (chain_plan N F D at_ A chain dead) _ (url_of N F D at_) refl
        (λ made. pure-Runs N F D at_ (chain_plan N F D at_ A chain dead) made.1 refl)

  -- The same of a hash fix.
  pub open_hash_pr-Concluded :
      (chain_name : String) (fixes : List HashFix) (s : Session N)
      → Concluded N F D at_
          (hash_plan N F D at_ chain_name fixes)
          s
          (open_hash_pr N F D at_ chain_name fixes s)
  unfolding open_hash_pr
  open_hash_pr-Concluded chain_name fixes =
      opened N F D at_ (hash_plan N F D at_ chain_name fixes) _ (url_of N F D at_) refl
        (λ made. pure-Runs N F D at_ (hash_plan N F D at_ chain_name fixes) made.1 refl)

  -- Whatever GitHub answers, and whether or not an answer is an error: the requests of a status flip
  -- and their answers are in the order of `Step`. Where it returns no error, either it returns the URL
  -- that GitHub gave for the pull request, which it made at status 201 and labelled at 200, or it
  -- returns "" and has only read. Its comments on other pull requests come behind the labels, and what
  -- it returns is what it would return if it gave no notice at all.
  pub open_status_pr-Concluded :
      (chain_name : String) (evidence : StatusPrEvidence) (s : Session N)
      → Concluded N F D at_
          (status_plan N F D at_ chain_name evidence)
          s
          (open_status_pr N F D at_ chain_name evidence s)
        × ((open_status_pr N F D at_ chain_name evidence s).0
            ≡ ((wrapped N "OpenStatusPR: "
                    (open_pull N F D at_ (status_plan N F D at_ chain_name evidence))
                  >>= url_of N F D at_)
                s).0)
  unfolding open_status_pr
  open_status_pr-Concluded chain_name evidence s =
      let plan = status_plan N F D at_ chain_name evidence in
      (
        opened N F D at_ plan _ (announce N F D at_ chain_name) refl
            (announce-Runs N F D at_ plan chain_name) s,
        announced chain_name (wrapped N "OpenStatusPR: " (open_pull N F D at_ plan)) s,
      )
