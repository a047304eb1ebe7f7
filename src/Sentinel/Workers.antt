-- ===== src/Sentinel/Workers.antt =====
-- cmd/sentinel/probe.go: `runWorkers`, as the steps of its goroutines. `Answers j rs` stands for a call
-- of `runProbe` on the job `j` that returns `rs`, whatever the network did meanwhile.
pub mod Closing
pub mod Agreement
pub mod Probes
pub mod Crew
pub mod Delivery
use chain_registry_sentinel.Base.{
  ℕ, zero, suc, ◌*◌, ◌<◌, ◌≡◌, Bool, true, false, List, [], ◌∷◌, ◌++◌, All, length,
}
use chain_registry_sentinel.Checks.Result.{Result}
use chain_registry_sentinel.Sentinel.Jobs.{Job}

-- A worker at its `range` over the jobs, between two sends of a job's results, or behind the loop.
pub data Worker : Type 0 where
  waiting : Worker
  sending : List Result → Worker
  finished : Worker

abbrev pub IsFinished : Worker → Type 0
IsFinished w = w ≡ finished

pub record Pool : Type 0 where
  -- What is left of `jobCh`, which is filled and closed before a worker starts.
  pub queue : List Job
  pub workers : List Worker
  -- What was sent on `resultCh`, in this order, and whether that channel is closed.
  pub sent : List Result
  pub closed : Bool

abbrev pub idle_workers : ℕ → List Worker
idle_workers zero = []
idle_workers (suc n) = waiting ∷ idle_workers n

-- The buffer of `resultCh`.
abbrev pub capacity : List Job → ℕ
capacity jobs = length jobs * 2

abbrev pub initial : List Job → ℕ → Pool
initial jobs concurrency = record {
  queue = jobs;
  workers = idle_workers concurrency;
  sent = [];
  closed = false;
}

module _ (Answers : Job → List Result → Type 0) (jobs : List Job) where
  -- A send goes through while the buffer has room, whether or not the reader has taken anything. The
  -- last goroutine closes the channel when all workers are done.
  pub data Step : Pool → Pool → Type 0 where
    take :
        (pre post : List Worker) (j : Job) (queue : List Job) (rs sent : List Result)
        → Answers j rs
        → Step
            (record {
              queue = j ∷ queue;
              workers = pre ++ waiting ∷ post;
              sent = sent;
              closed = false;
            })
            (record {
              queue = queue;
              workers = pre ++ sending rs ∷ post;
              sent = sent;
              closed = false;
            })
    send :
        (pre post : List Worker) (queue : List Job) (r : Result) (rs sent : List Result)
        → length sent < capacity jobs
        → Step
            (record {
              queue = queue;
              workers = pre ++ sending (r ∷ rs) ∷ post;
              sent = sent;
              closed = false;
            })
            (record {
              queue = queue;
              workers = pre ++ sending rs ∷ post;
              sent = sent ++ r ∷ [];
              closed = false;
            })
    again :
        (pre post : List Worker) (queue : List Job) (sent : List Result)
        → Step
            (record {
              queue = queue;
              workers = pre ++ sending [] ∷ post;
              sent = sent;
              closed = false;
            })
            (record { queue = queue; workers = pre ++ waiting ∷ post; sent = sent; closed = false })
    finish :
        (pre post : List Worker) (sent : List Result)
        → Step
            (record { queue = []; workers = pre ++ waiting ∷ post; sent = sent; closed = false })
            (record { queue = []; workers = pre ++ finished ∷ post; sent = sent; closed = false })
    close :
        (queue : List Job) (workers : List Worker) (sent : List Result)
        → All IsFinished workers
        → Step
            (record { queue = queue; workers = workers; sent = sent; closed = false })
            (record { queue = queue; workers = workers; sent = sent; closed = true })

  pub data Reach (concurrency : ℕ) : Pool → Type 0 where
    start : Reach concurrency (initial jobs concurrency)
    later : {s t : Pool} → Reach concurrency s → Step s t → Reach concurrency t
