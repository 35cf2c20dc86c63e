-- ===== src/DatabaseJobManager/Tests.antt =====
-- Two queues of one place each, and jobs that are numbers; to execute one is to add 100.
use easy_game_server.Prelude.{ℕ, ◌+◌, ◌≡◌, List, [], ◌∷◌, ◌++◌, map, arith}
use easy_game_server.ProducerConsumerQueue.Refine.{contents}
use easy_game_server.DatabaseJobManager.{
  Event, client_pushes, client_attempts, client_pops, database_runs, run, start,
}
use easy_game_server.DatabaseJobManager.Order.{in_hand, run_ordered}
use easy_game_server.DatabaseJobManager.Rounds.{IsStuck}
use easy_game_server.DatabaseJobManager.Deadlock.{burst, burst_deadlocks}

abbrev execute : ℕ → ℕ
execute job = job + 100

abbrev schedule : List (Event ℕ)
schedule =
    client_pushes 1
    ∷ client_attempts
    ∷ database_runs
    ∷ client_pushes 2
    ∷ client_attempts
    ∷ database_runs
    ∷ client_pops
    ∷ database_runs
    ∷ []

run_ordered_example :
    let s = run 1 execute (start 1 0) schedule in
    s.popped
      ++ (contents s.manager.db_job_result_queue
          ++ (in_hand s.database ++ map execute (contents s.manager.db_job_request_queue)))
    ≡ map execute s.pushed
run_ordered_example = run_ordered 1 execute schedule 0 (omega arith) (omega arith)

burst_deadlocks_example :
    let s = run 1 execute (start 1 0) (burst (1 ∷ 2 ∷ 3 ∷ 4 ∷ [])) in
    IsStuck 1 s × ((events : List (Event ℕ)) → run 1 execute s events ≡ s)
burst_deadlocks_example =
    burst_deadlocks 1 execute (1 ∷ 2 ∷ 3 ∷ 4 ∷ []) 0 (omega arith) (omega arith) (omega arith)
