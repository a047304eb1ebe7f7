-- ===== src/Sentinel/Workers/Delivery.antt =====
-- What the channel of `runWorkers` (cmd/sentinel/probe.go) has carried when it is closed.
use mathlib.Core.List.{append_assoc, append-nil, Perm, perm_append_comm, perm_middle}
use mathlib.Core.List.Perm
use chain_registry_sentinel.Base.{
  ℕ, suc, zero, ◌<◌, ◌≡◌, refl, sym, ap, ◌∙◌, subst, true, List, [], ◌∷◌, ◌++◌, arith, All,
  All-append,
}
use chain_registry_sentinel.Checks.Result.{Result}
use chain_registry_sentinel.Sentinel.Jobs.{Job}
use chain_registry_sentinel.Sentinel.Workers.{
  Worker, waiting, sending, finished, IsFinished, Pool, idle_workers, Step, take, send, again,
  finish, close, Reach, start, later,
}
use chain_registry_sentinel.Sentinel.Workers.Crew.{Reach-Manned, ended-All}

-- What a worker has still to send.
abbrev pub left_of : Worker → List Result
left_of waiting = []
left_of (sending rs) = rs
left_of finished = []

abbrev pub pending : List Worker → List Result
pending [] = []
pending (w ∷ ws) = left_of w ++ pending ws

-- The results of a job each, in the order in which the jobs were taken.
abbrev pub results_of : List (Job × List Result) → List Result
results_of [] = []
results_of ((j, rs) ∷ as') = rs ++ results_of as'

abbrev pub jobs_of : List (Job × List Result) → List Job
jobs_of [] = []
jobs_of ((j, rs) ∷ as') = j ∷ jobs_of as'

pending-append :
    (pre post : List Worker) (w : Worker)
    → pending (pre ++ w ∷ post) ≡ pending pre ++ (left_of w ++ pending post)
pending-append [] post w = refl
pending-append (v ∷ pre) post w =
    ap (λ l. left_of v ++ l) (pending-append pre post w)
    ∙ sym (append_assoc (left_of v) (pending pre) (left_of w ++ pending post))

results_of-append :
    (as' : List (Job × List Result)) (j : Job) (rs : List Result)
    → results_of (as' ++ (j, rs) ∷ []) ≡ results_of as' ++ rs
results_of-append [] j rs = append-nil rs
results_of-append ((i, ss) ∷ as') j rs =
    ap (λ l. ss ++ l) (results_of-append as' j rs) ∙ sym (append_assoc ss (results_of as') rs)

jobs_of-append :
    (as' : List (Job × List Result)) (j : Job) (rs : List Result) (queue : List Job)
    → jobs_of (as' ++ (j, rs) ∷ []) ++ queue ≡ jobs_of as' ++ j ∷ queue
jobs_of-append [] j rs queue = refl
jobs_of-append ((i, ss) ∷ as') j rs queue = ap (λ l. i ∷ l) (jobs_of-append as' j rs queue)

module _ {ℓ} {A : Type ℓ} where
  perm-carried :
      (sent before after rs total : List A)
      → Perm (sent ++ (before ++ after)) total
      → Perm (sent ++ (before ++ (rs ++ after))) (total ++ rs)
  perm-carried sent before after rs total p =
      Perm.trans (Perm.append_left sent (Perm.append_left before (perm_append_comm rs after)))
        (subst (λ l. Perm l (total ++ rs)) whole (Perm.append_right rs p))
    where
      whole : (sent ++ (before ++ after)) ++ rs ≡ sent ++ (before ++ (after ++ rs))
      whole =
          append_assoc sent (before ++ after) rs
          ∙ ap (λ l. sent ++ l) (append_assoc before after rs)

  perm-sent :
      (sent before after : List A) (r : A)
      → Perm ((sent ++ r ∷ []) ++ (before ++ after)) (sent ++ (before ++ r ∷ after))
  perm-sent sent before after r =
      subst (λ l. Perm l (sent ++ (before ++ r ∷ after)))
        (sym (append_assoc sent (r ∷ []) (before ++ after)))
        (Perm.append_left sent (Perm.symm (perm_middle before after)))

pending-idle_workers : (n : ℕ) → pending (idle_workers n) ≡ []
pending-idle_workers zero = refl
pending-idle_workers (suc n) = pending-idle_workers n

pending-IsFinished : (ws : List Worker) → All IsFinished ws → pending ws ≡ []
pending-IsFinished [] h = refl
pending-IsFinished (w ∷ ws) h = ap (λ v. left_of v ++ pending ws) h.0 ∙ pending-IsFinished ws h.1

module _ (Answers : Job → List Result → Type 0) where
  abbrev pub AllAnswered : List (Job × List Result) → Type 0
  AllAnswered as' = All (λ (a : Job × List Result). Answers a.0 a.1) as'

  -- Every job is taken once, in its turn; the results of the jobs that were taken are, in some order,
  -- those that were sent and those that the workers have still to send.
  pub record Delivers (jobs : List Job) (s : Pool) : Type 0 where
    pub answered : List (Job × List Result)
    pub answers : AllAnswered answered
    pub turns : jobs_of answered ++ s.queue ≡ jobs
    pub carried : Perm (s.sent ++ pending s.workers) (results_of answered)

module _ (Answers : Job → List Result → Type 0) (jobs : List Job) where
  Step-Delivers :
      (s t : Pool) → Step Answers jobs s t → Delivers Answers jobs s → Delivers Answers jobs t
  Step-Delivers s t (take pre post j queue rs sent answer) d = record {
    answered = d.answered ++ (j, rs) ∷ [];
    answers = All-append (λ a. Answers a.0 a.1) d.answered ((j, rs) ∷ []) d.answers (answer, tt);
    turns = jobs_of-append d.answered j rs queue ∙ d.turns;
    carried = rw (pending-append pre post (sending rs)) (
        rw (results_of-append d.answered j rs) (
          perm-carried sent (pending pre) (pending post) rs (results_of d.answered) (
            subst (λ l. Perm (sent ++ l) (results_of d.answered)) (pending-append pre post waiting)
              d.carried)));
  }
  Step-Delivers s t (send pre post queue r rs sent room) d = record {
    answered = d.answered;
    answers = d.answers;
    turns = d.turns;
    carried = rw (pending-append pre post (sending rs)) (
        Perm.trans (perm-sent sent (pending pre) (rs ++ pending post) r) (
          subst (λ l. Perm (sent ++ l) (results_of d.answered))
            (pending-append pre post (sending (r ∷ rs))) d.carried));
  }
  Step-Delivers s t (again pre post queue sent) d = record {
    answered = d.answered;
    answers = d.answers;
    turns = d.turns;
    carried =
        subst (λ l. Perm (sent ++ l) (results_of d.answered))
          (pending-append pre post (sending []) ∙ sym (pending-append pre post waiting)) d.carried;
  }
  Step-Delivers s t (finish pre post sent) d = record {
    answered = d.answered;
    answers = d.answers;
    turns = d.turns;
    carried =
        subst (λ l. Perm (sent ++ l) (results_of d.answered))
          (pending-append pre post waiting ∙ sym (pending-append pre post finished)) d.carried;
  }
  Step-Delivers s t (close queue workers sent all) d = record {
    answered = d.answered;
    answers = d.answers;
    turns = d.turns;
    carried = d.carried;
  }

  module _ (concurrency : ℕ) where
    Reach-Delivers : (s : Pool) → Reach Answers jobs concurrency s → Delivers Answers jobs s
    Reach-Delivers s start = record {
      answered = [];
      answers = tt;
      turns = refl;
      carried = subst (λ l. Perm l []) (sym (pending-idle_workers concurrency)) Perm.nil;
    }
    Reach-Delivers t (later {s = s} reach step) = Step-Delivers s t step (Reach-Delivers s reach)

    -- However the workers of a run took turns: when the channel of the results is closed and at least one
    -- worker was started, every job was probed once and the jobs were taken in their order, and what
    -- the channel carried is, up to order, the results of the probes and nothing else.
    pub Reach-results_of :
        (s : Pool)
        → 0 < concurrency
        → Reach Answers jobs concurrency s
        → s.closed ≡ true
        → (answered : List (Job × List Result)) × AllAnswered Answers answered
          × (jobs_of answered ≡ jobs)
          × Perm s.sent (results_of answered)
    Reach-results_of s some_worker reach closed =
        let d = Reach-Delivers s reach in
        let m = Reach-Manned Answers jobs concurrency s reach in
        let all = m.behind closed in
        let empty : s.queue ≡ [] =
          m.drained (omega (arith, some_worker, m.crew, ended-All s.workers all)) in
        (
          d.answered,
          d.answers,
          sym (append-nil (jobs_of d.answered))
              ∙ ap (λ l. jobs_of d.answered ++ l) (sym empty)
              ∙ d.turns,
          subst (λ l. Perm l (results_of d.answered)) (append-nil s.sent)
              (subst (λ l. Perm (s.sent ++ l) (results_of d.answered))
                (pending-IsFinished s.workers all) d.carried),
        )
