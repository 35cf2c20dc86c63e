-- ===== src/DatabaseJobManager/Order.antt =====
-- Jobs on their way through the two queues: none is lost, doubled or overtaken.
use easy_game_server.Prelude.{
  ℕ, ◌^◌, ◌<◌, ◌≡◌, refl, true, false, List, [], ◌∷◌, ◌++◌, arith, append_assoc, map,
}
use mathlib.Core.List.{map-append}
use easy_game_server.ProducerConsumerQueue.Refine.{
  IsValid, contents, init-IsValid, produce_refines, consume_refines,
}
use easy_game_server.DatabaseJobManager.{
  ClientThread, runs, pushing, DatabaseThread, consuming, delivering, Threads, Event, client_pushes,
  client_attempts, client_pops, database_runs, push_database_job_request, pop_database_job_result,
  attempt_push, attempt_pop, execute_database_jobs, step, run, start,
}

abbrev pub in_hand : {Job : Type 0} → DatabaseThread Job → List Job
in_hand consuming = []
in_hand (delivering job) = job ∷ []

module _ {Job : Type 0} (q_size : ℕ) (execute : Job → Job) where
  -- The jobs that have been executed and those that have not, in the order of their requests.
  record IsOrdered (s : Threads Job) : Type 0 where
    pub requests : IsValid q_size s.manager.db_job_request_queue
    pub results : IsValid q_size s.manager.db_job_result_queue
    pub ordered :
        s.popped
          ++ (contents s.manager.db_job_result_queue
              ++ (in_hand s.database ++ map execute (contents s.manager.db_job_request_queue)))
        ≡ map execute s.pushed

  -- A job that joins the requests joins the pushed.
  ordered-push :
      (before results hand requests pushed : List Job) (job : Job)
      → before ++ (results ++ (hand ++ map execute requests)) ≡ map execute pushed
      → before ++ (results ++ (hand ++ map execute (requests ++ (job ∷ []))))
        ≡ map execute (pushed ++ (job ∷ []))
  ordered-push before results hand requests pushed job e =
      rw (map-append, map-append, ← e) (simp append_assoc)

  attempt_push-IsOrdered :
      (s : Threads Job) (c : ClientThread Job)
      → IsOrdered s
      → IsOrdered (attempt_push q_size execute s c)
  unfolding attempt_push push_database_job_request
  attempt_push-IsOrdered s runs v = v
  attempt_push-IsOrdered s (pushing job) v = ground (
    arith,
    v,
    produce_refines q_size job true v.requests,
    ordered-push s.popped (contents s.manager.db_job_result_queue) (in_hand s.database)
        (contents s.manager.db_job_request_queue) s.pushed job,
  )

  attempt_pop-IsOrdered :
      (s : Threads Job) (c : ClientThread Job)
      → IsOrdered s
      → IsOrdered (attempt_pop q_size execute s c)
  unfolding attempt_pop pop_database_job_result
  attempt_pop-IsOrdered s runs v = popped (contents s.manager.db_job_result_queue) refl
    where
      popped :
          (jobs : List Job)
          → contents s.manager.db_job_result_queue ≡ jobs
          → IsOrdered (attempt_pop q_size execute s runs)
      popped [] e = ground (arith, v, e, consume_refines q_size false v.results)
      popped (job ∷ jobs) e = ground (
        arith,
        v,
        e,
        consume_refines q_size false v.results,
        append_assoc s.popped (job ∷ [])
            (jobs ++ (in_hand s.database ++ map execute (contents s.manager.db_job_request_queue))),
      )
  attempt_pop-IsOrdered s (pushing job) v = v

  execute-IsOrdered :
      (s : Threads Job) (d : DatabaseThread Job)
      → IsOrdered (record s { database = d })
      → IsOrdered (execute_database_jobs q_size execute (record s { database = d }) d)
  unfolding execute_database_jobs
  execute-IsOrdered s consuming v = consumed (contents s.manager.db_job_request_queue) refl
    where
      consumed :
          (jobs : List Job)
          → contents s.manager.db_job_request_queue ≡ jobs
          → IsOrdered
              (execute_database_jobs q_size execute (record s { database = consuming }) consuming)
      consumed [] e = ground (arith, v, e, consume_refines q_size true v.requests)
      consumed (job ∷ jobs) e = ground (arith, v, e, consume_refines q_size true v.requests)
  execute-IsOrdered s (delivering job) v = ground (
    arith,
    v,
    produce_refines q_size job true v.results,
    append_assoc (contents s.manager.db_job_result_queue) (job ∷ [])
        (map execute (contents s.manager.db_job_request_queue)),
  )

  step-IsOrdered :
      (s : Threads Job) (event : Event Job) → IsOrdered s → IsOrdered (step q_size execute s event)
  unfolding step
  step-IsOrdered s (client_pushes job) v = ground (arith, v)
  step-IsOrdered s client_attempts v = attempt_push-IsOrdered s s.client v
  step-IsOrdered s client_pops v = attempt_pop-IsOrdered s s.client v
  step-IsOrdered s database_runs v = execute-IsOrdered s s.database v

  run-IsOrdered :
      (events : List (Event Job)) (s : Threads Job)
      → IsOrdered s
      → IsOrdered (run q_size execute s events)
  unfolding run
  run-IsOrdered [] s v = v
  run-IsOrdered (event ∷ events) s v =
      run-IsOrdered events (step q_size execute s event) (step-IsOrdered s event v)

  start-IsOrdered : (blank : Job) → 0 < q_size → q_size < 2 ^ 31 → IsOrdered (start q_size blank)
  start-IsOrdered blank h k = ground (arith, init-IsValid q_size blank h k)

  -- Under every interleaving of the two threads, the results given out, those in the result queue,
  -- the one in the database thread's hand and the requests still to be executed are the jobs
  -- pushed, executed once each, in the order of their requests.
  pub run_ordered :
      (events : List (Event Job)) (blank : Job)
      → 0 < q_size
      → q_size < 2 ^ 31
      → let s = run q_size execute (start q_size blank) events in
        s.popped
          ++ (contents s.manager.db_job_result_queue
              ++ (in_hand s.database ++ map execute (contents s.manager.db_job_request_queue)))
        ≡ map execute s.pushed
  run_ordered events blank h k =
      (run-IsOrdered events (start q_size blank) (start-IsOrdered blank h k)).ordered
