-- ===== src/Sentinel/Workers/Crew.antt =====
-- The workers of `runWorkers` (cmd/sentinel/probe.go), counted.
use mathlib.Core.List.{cons≢nil}
use mathlib.Core.Bool.{true≢false}
use chain_registry_sentinel.Base.{
  ℕ, suc, zero, true, ◌+◌, ◌<◌, ◌≡◌, refl, sym, ap, List, [], ◌∷◌, ◌++◌, arith, All,
}
use chain_registry_sentinel.Checks.Result.{Result}
use chain_registry_sentinel.Sentinel.Jobs.{Job}
use chain_registry_sentinel.Sentinel.Workers.{
  Worker, waiting, sending, finished, IsFinished, Pool, idle_workers, Step, take, send, again,
  finish, close, Reach, start, later,
}

abbrev pub weigh : (Worker → ℕ) → List Worker → ℕ
weigh f [] = 0
weigh f (w ∷ ws) = f w + weigh f ws

pub weigh-middle :
    (f : Worker → ℕ) (pre post : List Worker) (w : Worker)
    → weigh f (pre ++ w ∷ post) ≡ f w + (weigh f pre + weigh f post)
weigh-middle f [] post w = omega arith
weigh-middle f (v ∷ pre) post w = omega (arith, weigh-middle f pre post w)

abbrev pub one : Worker → ℕ
one w = 1

abbrev pub ended : Worker → ℕ
ended waiting = 0
ended (sending rs) = 0
ended finished = 1

pub weigh-idle_workers : (n : ℕ) → weigh one (idle_workers n) ≡ n
weigh-idle_workers zero = refl
weigh-idle_workers (suc n) = omega (arith, weigh-idle_workers n)

pub ended-idle_workers : (n : ℕ) → weigh ended (idle_workers n) ≡ 0
ended-idle_workers zero = refl
ended-idle_workers (suc n) = omega (arith, ended-idle_workers n)

pub ended-All : (ws : List Worker) → All IsFinished ws → weigh ended ws ≡ weigh one ws
ended-All [] h = refl
ended-All (w ∷ ws) h = omega (arith, ap ended h.0, ended-All ws h.1)

-- No worker is lost or started again, none leaves the loop before the queue is empty, and the channel
-- is closed behind the last one only.
pub record Manned (concurrency : ℕ) (s : Pool) : Type 0 where
  pub crew : weigh one s.workers ≡ concurrency
  pub drained : 0 < weigh ended s.workers → s.queue ≡ []
  pub behind : s.closed ≡ true → All IsFinished s.workers

module _ (Answers : Job → List Result → Type 0) (jobs : List Job) (concurrency : ℕ) where
  Step-Manned : (s t : Pool) → Step Answers jobs s t → Manned concurrency s → Manned concurrency t
  Step-Manned s t (take pre post j queue rs sent answer) m = record {
    crew =
        omega (
          arith,
          m.crew,
          weigh-middle one pre post waiting,
          weigh-middle one pre post (sending rs),
        );
    drained = λ h. absurd (
        cons≢nil (
          m.drained (
            omega (
              arith,
              h,
              weigh-middle ended pre post waiting,
              weigh-middle ended pre post (sending rs),
            ))));
    behind = λ h. absurd (true≢false (sym h));
  }
  Step-Manned s t (send pre post queue r rs sent room) m = record {
    crew = omega (
      arith,
      m.crew,
      weigh-middle one pre post (sending (r ∷ rs)),
      weigh-middle one pre post (sending rs),
    );
    drained = λ h. m.drained (
        omega (
          arith,
          h,
          weigh-middle ended pre post (sending (r ∷ rs)),
          weigh-middle ended pre post (sending rs),
        ));
    behind = λ h. absurd (true≢false (sym h));
  }
  Step-Manned s t (again pre post queue sent) m = record {
    crew =
        omega (
          arith,
          m.crew,
          weigh-middle one pre post (sending []),
          weigh-middle one pre post waiting,
        );
    drained = λ h. m.drained (
        omega (
          arith,
          h,
          weigh-middle ended pre post (sending []),
          weigh-middle ended pre post waiting,
        ));
    behind = λ h. absurd (true≢false (sym h));
  }
  Step-Manned s t (finish pre post sent) m = record {
    crew =
        omega
          (arith, m.crew, weigh-middle one pre post waiting, weigh-middle one pre post finished);
    drained = λ h. refl;
    behind = λ h. absurd (true≢false (sym h));
  }
  Step-Manned s t (close queue workers sent all) m = record {
    crew = m.crew;
    drained = m.drained;
    behind = λ h. all;
  }

  pub Reach-Manned : (s : Pool) → Reach Answers jobs concurrency s → Manned concurrency s
  Reach-Manned s start = record {
    crew = weigh-idle_workers concurrency;
    drained = λ h. absurd (omega (arith, h, ended-idle_workers concurrency));
    behind = λ h. absurd (true≢false (sym h));
  }
  Reach-Manned t (later {s = s} reach step) = Step-Manned s t step (Reach-Manned s reach)
