-- ===== src/Sentinel/Workers/Probes.antt =====
-- `runWorkers` with `runProbe` (cmd/sentinel/probe.go) for the calls of its goroutines. Each call has a
-- state of the network of its own: what others send does not come between its requests.
use mathlib.Core.Option.{some-injective}
use chain_registry_sentinel.Base.{
  ℕ, ◌≡◌, ◌<◌, ◌*◌, refl, sym, ap, ◌∙◌, true, List, [], ◌∷◌, some, String, arith, length,
  length-append,
}
use chain_registry_sentinel.Checks.Fetch.Upgraded.{Switches}
use chain_registry_sentinel.Checks.NodeInfoWire.Total.{TagsTakeBytes}
use chain_registry_sentinel.Checks.Result.{Result}
use chain_registry_sentinel.Sentinel.Jobs.{Job}
use chain_registry_sentinel.Sentinel.Probe.{stamp_order}
use chain_registry_sentinel.Sentinel.Probe.Run.{Packages, State, run_probe}
use chain_registry_sentinel.Sentinel.Probe.Run.Total.{run_probe-Returns}
use chain_registry_sentinel.Sentinel.Workers.{Pool, Reach}
use chain_registry_sentinel.Sentinel.Workers.Agreement.{length-Perm}
use chain_registry_sentinel.Sentinel.Workers.Closing.{Closes, Reach-Closes}
use chain_registry_sentinel.Sentinel.Workers.Delivery.{
  results_of, jobs_of, AllAnswered, Reach-results_of,
}

module _ (P : Packages) (ua : String) where
  -- In some state of the network the job's probe returned these results.
  abbrev pub ProbeAnswers : Job → List Result → Type 0
  ProbeAnswers j rs = (s t : State P) × (run_probe P ua j s ≡ some (rs, t))

  module _ (tags : TagsTakeBytes P.wire) (switches : Switches P.http P.sockets) where
    two_results : (j : Job) (rs : List Result) → ProbeAnswers j rs → length rs ≡ 2
    unfolding stamp_order
    two_results j rs (s, t, e) =
        let r = run_probe-Returns P tags switches ua j s in
        ap (λ (x : List Result × State P). length x.0) (some-injective _ _ (sym e ∙ r.returned))

    -- A run of the workers over the probes of its jobs comes to an end: from every state that it reaches,
    -- whatever the network answers and whichever goroutine goes on next, the channel of the results is
    -- closed after finitely many steps, and until then some goroutine can go on. Assumed is that a
    -- protowire tag takes at least one byte, and that a WebSocket is opened at status 101 only.
    pub run_probe-Closes :
        (jobs : List Job) (concurrency : ℕ) (s : Pool)
        → State P
        → Reach ProbeAnswers jobs concurrency s
        → Closes ProbeAnswers jobs s
    run_probe-Closes jobs concurrency s now reach =
        Reach-Closes ProbeAnswers jobs (λ j rs a. omega (arith, two_results j rs a))
          (λ j.
            let r = run_probe-Returns P tags switches ua j now in
            (stamp_order j.order r.judged, (now, r.state, r.returned)))
          concurrency s reach

    two_each :
        (answered : List (Job × List Result))
        → AllAnswered ProbeAnswers answered
        → length (results_of answered) ≡ length (jobs_of answered) * 2
    two_each [] h = refl
    two_each ((j, rs) ∷ answered) h =
        omega (
          arith,
          two_results j rs h.0,
          two_each answered h.1,
          length-append rs (results_of answered),
        )

    -- Such a run with at least one worker delivers exactly two results for each job.
    pub run_probe-length :
        (jobs : List Job) (concurrency : ℕ) (s : Pool)
        → 0 < concurrency
        → Reach ProbeAnswers jobs concurrency s
        → s.closed ≡ true
        → length s.sent ≡ length jobs * 2
    run_probe-length jobs concurrency s some_worker reach closed =
        let (answered, all, turns, carried) =
          Reach-results_of ProbeAnswers jobs concurrency s some_worker reach closed in
        omega (
          arith,
          two_each answered all,
          ap length turns,
          length-Perm s.sent (results_of answered) carried,
        )
