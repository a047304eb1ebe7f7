-- ===== src/Examples/Pool.antt =====
-- Two jobs, probed by a single worker and by two, and the table of the run.
use chain_registry_sentinel.Base.{◌≡◌, refl, sym, ◌∙◌, true, false, List, [], ◌∷◌, arith, count}
use chain_registry_sentinel.Checks.Result.{Result}
use chain_registry_sentinel.Sentinel.Jobs.{EndpointType, Job, type_rpc, type_rest}
use chain_registry_sentinel.Sentinel.Summary.{collect_results, summary_of}
use chain_registry_sentinel.Sentinel.Summary.Fields.{stats_at}
use chain_registry_sentinel.Sentinel.Summary.Kinds.{stat_of}
use chain_registry_sentinel.Sentinel.Summary.Counts.{
  measured, checked, live_of, unreachable_of, wrong_of, collect_results-stat_of,
}
use chain_registry_sentinel.Sentinel.Summary.Printed.{Sums, summary_of-Sums}
use chain_registry_sentinel.Sentinel.Workers.{
  waiting, sending, finished, Pool, Reach, start, later, take, send, again, finish, close,
}
use chain_registry_sentinel.Sentinel.Workers.Agreement.{Reach-collect_results}
use chain_registry_sentinel.Sentinel.Workers.Delivery.{
  results_of, jobs_of, AllAnswered, Reach-results_of,
}
use chain_registry_sentinel.Examples.Data.{osmosis, rpc_a, rest_a, passed_result, failed_result}
use mathlib.Core.List.{Perm}

abbrev rest_job : Job
rest_job = record { chain = osmosis; endpoint = rest_a; endpoint_type = type_rest; order = 1 }

abbrev rpc_job : Job
rpc_job = record { chain = osmosis; endpoint = rpc_a; endpoint_type = type_rpc; order = 1 }

abbrev the_jobs : List Job
the_jobs = rest_job ∷ rpc_job ∷ []

abbrev failed_id : Result
failed_id = record failed_result { check = "rest_chain_id"; skipped = true }

abbrev passed_id : Result
passed_id = record passed_result { check = "rpc_chain_id" }

abbrev failed_answer : List Result
failed_answer = failed_result ∷ failed_id ∷ []

abbrev passed_answer : List Result
passed_answer = passed_result ∷ passed_id ∷ []

-- The REST endpoint fails and the others pass.
abbrev answer_at : EndpointType → List Result
answer_at type_rest = failed_answer
answer_at _ = passed_answer

abbrev Answers : Job → List Result → Type 0
Answers j rs = rs ≡ answer_at j.endpoint_type

abbrev in_turn : List Result
in_turn = failed_result ∷ failed_id ∷ passed_result ∷ passed_id ∷ []

abbrev in_between : List Result
in_between = passed_result ∷ failed_result ∷ passed_id ∷ failed_id ∷ []

abbrev one_closed : Pool
one_closed = record { queue = []; workers = finished ∷ []; sent = in_turn; closed = true }

abbrev two_closed : Pool
two_closed = record {
  queue = [];
  workers = finished ∷ finished ∷ [];
  sent = in_between;
  closed = true;
}

run_of_one : Reach Answers the_jobs 1 one_closed
run_of_one =
    later
      (later
        (later
          (later
            (later
              (later
                (later
                  (later
                    (later (later start (take [] [] rest_job (rpc_job ∷ []) failed_answer [] refl))
                      (send [] [] (rpc_job ∷ []) failed_result (failed_id ∷ []) [] (omega arith)))
                    (send [] [] (rpc_job ∷ []) failed_id [] (failed_result ∷ []) (omega arith)))
                  (again [] [] (rpc_job ∷ []) failed_answer))
                (take [] [] rpc_job [] passed_answer failed_answer refl))
              (send [] [] [] passed_result (passed_id ∷ []) failed_answer (omega arith)))
            (send [] [] [] passed_id [] (failed_result ∷ failed_id ∷ passed_result ∷ [])
              (omega arith)))
          (again [] [] [] in_turn))
        (finish [] [] in_turn))
      (close [] (finished ∷ []) in_turn (refl, tt))

-- The second worker overtakes the first.
run_of_two : Reach Answers the_jobs 2 two_closed
run_of_two =
    later
      (later
        (later
          (later
            (later
              (later
                (later
                  (later
                    (later
                      (later
                        (later start
                          (take [] (waiting ∷ []) rest_job (rpc_job ∷ []) failed_answer [] refl))
                        (take (sending failed_answer ∷ []) [] rpc_job [] passed_answer [] refl))
                      (send (sending failed_answer ∷ []) [] [] passed_result (passed_id ∷ []) []
                        (omega arith)))
                    (send [] (sending (passed_id ∷ []) ∷ []) [] failed_result (failed_id ∷ [])
                      (passed_result ∷ []) (omega arith)))
                  (send (sending (failed_id ∷ []) ∷ []) [] [] passed_id []
                    (passed_result ∷ failed_result ∷ []) (omega arith)))
                (again (sending (failed_id ∷ []) ∷ []) [] []
                  (passed_result ∷ failed_result ∷ passed_id ∷ [])))
              (finish (sending (failed_id ∷ []) ∷ []) []
                (passed_result ∷ failed_result ∷ passed_id ∷ [])))
            (send [] (finished ∷ []) [] failed_id []
              (passed_result ∷ failed_result ∷ passed_id ∷ []) (omega arith)))
          (again [] (finished ∷ []) [] in_between))
        (finish [] (finished ∷ []) in_between))
      (close [] (finished ∷ finished ∷ []) in_between (refl, (refl, tt)))

Reach-results_of_example :
    (answered : List (Job × List Result)) × AllAnswered Answers answered
    × (jobs_of answered ≡ the_jobs)
    × Perm in_between (results_of answered)
Reach-results_of_example =
    Reach-results_of Answers the_jobs 2 two_closed (omega arith) run_of_two refl

one_answer : (j : Job) (rs ss : List Result) → Answers j rs → Answers j ss → rs ≡ ss
one_answer j rs ss h k = h ∙ sym k

Reach-collect_results_example :
    stat_of type_rest (stats_at "osmosis/osmosis-1" (collect_results true in_turn).per_chain)
    ≡ stat_of type_rest (stats_at "osmosis/osmosis-1" (collect_results true in_between).per_chain)
Reach-collect_results_example =
    Reach-collect_results Answers the_jobs one_answer 1 2 one_closed two_closed (omega arith)
      (omega arith) run_of_one run_of_two refl refl true type_rest "osmosis/osmosis-1"

collect_results-stat_of_example :
    stat_of type_rest (stats_at "osmosis/osmosis-1" (collect_results true in_turn).per_chain)
    ≡ record {
      total = count (measured "osmosis/osmosis-1" (checked type_rest)) in_turn;
      live = count (measured "osmosis/osmosis-1" (live_of type_rest)) in_turn;
      unreachable = count (measured "osmosis/osmosis-1" (unreachable_of type_rest)) in_turn;
      wrong_resp = count (measured "osmosis/osmosis-1" (wrong_of type_rest)) in_turn;
    }
collect_results-stat_of_example = collect_results-stat_of type_rest true in_turn "osmosis/osmosis-1"

summary_of-Sums_example : Sums in_turn (summary_of (collect_results false in_turn).per_chain)
summary_of-Sums_example = summary_of-Sums false in_turn
