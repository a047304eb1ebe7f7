-- ===== src/Sentinel/Workers/Closing.antt =====
-- That `runWorkers` (cmd/sentinel/probe.go) closes its channel, whatever its goroutines do first.
use chain_registry_sentinel.Base.{
  ℕ, suc, zero, ◌+◌, ◌*◌, ◌<◌, ◌≤◌, ◌≡◌, refl, sym, subst, Bool-cases, Bool, true, false, inl, inr,
  List, [], ◌∷◌, ◌++◌, arith, All, length, length-append,
}
use chain_registry_sentinel.Checks.Result.{Result}
use chain_registry_sentinel.Sentinel.Jobs.{Job}
use chain_registry_sentinel.Sentinel.Workers.{
  Worker, waiting, sending, finished, IsFinished, Pool, idle_workers, capacity, Step, take, send,
  again, finish, close, Reach, start, later,
}
use chain_registry_sentinel.Sentinel.Workers.Crew.{weigh, weigh-middle}

abbrev unsent : Worker → ℕ
unsent waiting = 0
unsent (sending rs) = length rs
unsent finished = 0

unsent-idle_workers : (n : ℕ) → weigh unsent (idle_workers n) ≡ 0
unsent-idle_workers zero = refl
unsent-idle_workers (suc n) = omega (arith, unsent-idle_workers n)

-- The steps that a worker has still to take on its own account.
abbrev steps_left : Worker → ℕ
steps_left waiting = 1
steps_left (sending rs) = 2 + length rs
steps_left finished = 0

abbrev open_channel : Bool → ℕ
open_channel true = 0
open_channel false = 1

abbrev pub measure : Pool → ℕ
measure s = length s.queue * 4 + weigh steps_left s.workers + open_channel s.closed

-- A worker that is not behind the loop, if there is one.
data Search : List Worker → Type 0 where
  everyone : {ws : List Worker} → All IsFinished ws → Search ws
  idle : (pre post : List Worker) → Search (pre ++ waiting ∷ post)
  busy : (pre post : List Worker) (rs : List Result) → Search (pre ++ sending rs ∷ post)

Search-cons : (w : Worker) (ws : List Worker) → w ≡ finished → Search ws → Search (w ∷ ws)
Search-cons w ws e (everyone h) = everyone (e, h)
Search-cons w ws e (idle pre post) = idle (w ∷ pre) post
Search-cons w ws e (busy pre post rs) = busy (w ∷ pre) post rs

Search-total : (ws : List Worker) → Search ws
Search-total [] = everyone tt
Search-total (waiting ∷ ws) = idle [] ws
Search-total (sending rs ∷ ws) = busy [] ws rs
Search-total (finished ∷ ws) = Search-cons finished ws refl (Search-total ws)

module _ (Answers : Job → List Result → Type 0) (jobs : List Job) where
  -- Every sequence of steps from here on comes to a closed channel, and none is stuck before.
  pub data Closes : Pool → Type 0 where
    closes : {s : Pool} → s.closed ≡ true → Closes s
    on :
        {s : Pool} (t : Pool)
        → Step Answers jobs s t
        → ((u : Pool) → Step Answers jobs s u → Closes u)
        → Closes s

  module _ (two_at_most : (j : Job) (rs : List Result) → Answers j rs → length rs ≤ 2)
      (answer : (j : Job) → (rs : List Result) × Answers j rs) where
    -- What is sent and what can still be sent fits into the buffer.
    abbrev Fits : Pool → Type 0
    Fits s = length s.sent + weigh unsent s.workers + length s.queue * 2 ≤ capacity jobs

    Step-Fits : (s t : Pool) → Step Answers jobs s t → Fits s → Fits t
    Step-Fits s t (take pre post j queue rs sent a) h = omega (
      arith,
      h,
      two_at_most j rs a,
      weigh-middle unsent pre post waiting,
      weigh-middle unsent pre post (sending rs),
    )
    Step-Fits s t (send pre post queue r rs sent room) h = omega (
      arith,
      h,
      length-append sent (r ∷ []),
      weigh-middle unsent pre post (sending (r ∷ rs)),
      weigh-middle unsent pre post (sending rs),
    )
    Step-Fits s t (again pre post queue sent) h =
        omega (
          arith,
          h,
          weigh-middle unsent pre post (sending []),
          weigh-middle unsent pre post waiting,
        )
    Step-Fits s t (finish pre post sent) h =
        omega
          (arith, h, weigh-middle unsent pre post waiting, weigh-middle unsent pre post finished)
    Step-Fits s t (close queue workers sent all) h = h

    pub Reach-Fits : (n : ℕ) (s : Pool) → Reach Answers jobs n s → Fits s
    Reach-Fits n s start = omega (arith, unsent-idle_workers n)
    Reach-Fits n t (later {s = s} reach step) = Step-Fits s t step (Reach-Fits n s reach)

    Step-measure : (s t : Pool) → Step Answers jobs s t → measure t < measure s
    Step-measure s t (take pre post j queue rs sent a) = omega (
      arith,
      two_at_most j rs a,
      weigh-middle steps_left pre post waiting,
      weigh-middle steps_left pre post (sending rs),
    )
    Step-measure s t (send pre post queue r rs sent room) = omega (
      arith,
      weigh-middle steps_left pre post (sending (r ∷ rs)),
      weigh-middle steps_left pre post (sending rs),
    )
    Step-measure s t (again pre post queue sent) = omega (
      arith,
      weigh-middle steps_left pre post (sending []),
      weigh-middle steps_left pre post waiting,
    )
    Step-measure s t (finish pre post sent) =
        omega (
          arith,
          weigh-middle steps_left pre post waiting,
          weigh-middle steps_left pre post finished,
        )
    Step-measure s t (close queue workers sent all) = omega arith

    pick-Step :
        (queue : List Job) (workers : List Worker) (sent : List Result)
        → Fits (record { queue = queue; workers = workers; sent = sent; closed = false })
        → Search workers
        → (t : Pool) × Step Answers jobs
            (record { queue = queue; workers = workers; sent = sent; closed = false })
            t
    pick-Step queue workers sent h (everyone all) = (_, close queue workers sent all)
    pick-Step [] workers sent h (idle pre post) = (_, finish pre post sent)
    pick-Step (j ∷ queue) workers sent h (idle pre post) =
        (_, take pre post j queue (answer j).0 sent (answer j).1)
    pick-Step queue workers sent h (busy pre post []) = (_, again pre post queue sent)
    pick-Step queue workers sent h (busy pre post (r ∷ rs)) = (
      _,
      send pre post queue r rs sent
          (omega (arith, h, weigh-middle unsent pre post (sending (r ∷ rs)))),
    )

    open-Step : (s : Pool) → s.closed ≡ false → Fits s → (t : Pool) × Step Answers jobs s t
    open-Step s e h =
        subst
          (λ c.
            (t : Pool) × Step Answers jobs
              (record { queue = s.queue; workers = s.workers; sent = s.sent; closed = c }) t)
          (sym e) (pick-Step s.queue s.workers s.sent h (Search-total s.workers))

    measure-Closes : (fuel : ℕ) (s : Pool) → measure s < fuel → Fits s → Closes s
    measure-Closes zero s bound h = absurd (omega (arith, bound))
    measure-Closes (suc fuel) s bound h = elim (Bool-cases s.closed) [
      | inl e ↦ closes e
      | inr e ↦
          let next = open-Step s e h in
          on next.0 next.1 (λ u step.
            measure-Closes fuel u (omega (arith, bound, Step-measure s u step))
              (Step-Fits s u step h))
    ]

    -- If the probe of every job returns, with two results at most, then from every state that a run of
    -- any number of workers reaches, whichever worker goes on next, the channel of the results is
    -- closed after finitely many steps, and until then some goroutine can take a step: a send never
    -- waits for a reader.
    pub Reach-Closes : (concurrency : ℕ) (s : Pool) → Reach Answers jobs concurrency s → Closes s
    Reach-Closes concurrency s reach =
        measure-Closes (suc (measure s)) s (omega arith) (Reach-Fits concurrency s reach)
