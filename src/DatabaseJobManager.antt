-- ===== src/DatabaseJobManager.antt =====
-- EasyServer/EasyServer/DatabaseJobManager.h and DatabaseJobManager.cpp: the queues of requests and
-- results between the client thread and the database thread. A job is what the code reaches through
-- a pointer to the abstract class `DatabaseJobContext`: any type, with its virtual `OnExecute`.
pub mod Order
pub mod Rounds
pub mod Deadlock
mod Tests
use easy_game_server.Prelude.{ℕ, Bool, true, false, Option, none, some, List, [], ◌∷◌, ◌++◌}
use easy_game_server.ProducerConsumerQueue.{
  ProducerConsumerQueue, Attempt, sleeps, finishes, produce, consume,
}
use easy_game_server.ProducerConsumerQueue

abbrev max_db_job : ℕ
max_db_job = 127

pub record DatabaseJobManager (Job : Type 0) : Type 0 where
  pub db_job_request_queue : ProducerConsumerQueue Job
  pub db_job_result_queue : ProducerConsumerQueue Job

-- `q_size` is `max_db_job` in the program.
module _ {Job : Type 0} (q_size : ℕ) where
  pub push_database_job_request :
      DatabaseJobManager Job → Job → Attempt (Bool × ProducerConsumerQueue Job)
  push_database_job_request m job = produce q_size m.db_job_request_queue job true

  -- The database thread is not waited for.
  pub pop_database_job_result :
      DatabaseJobManager Job → Attempt (Option Job × ProducerConsumerQueue Job)
  pop_database_job_result m = consume q_size m.db_job_result_queue false

-- Where the client thread stands: in code of its own, or in `PushDatabaseJobRequest`.
pub data ClientThread (Job : Type 0) : Type 0 where
  runs : ClientThread Job
  pushing : Job → ClientThread Job

-- Where the database thread stands in the loop of `ExecuteDatabaseJobs`: before its `Consume`, or
-- before its `Produce` with a job that has been executed.
pub data DatabaseThread (Job : Type 0) : Type 0 where
  consuming : DatabaseThread Job
  delivering : Job → DatabaseThread Job

-- `pushed` are the jobs of the finished calls of `PushDatabaseJobRequest`, `popped` those that
-- `PopDatabaseJobResult` has given out.
pub record Threads (Job : Type 0) : Type 0 where
  pub manager : DatabaseJobManager Job
  pub client : ClientThread Job
  pub database : DatabaseThread Job
  pub pushed : List Job
  pub popped : List Job

-- An attempt that must wait changes nothing, and can be made again.
pub data Event (Job : Type 0) : Type 0 where
  client_pushes : Job → Event Job
  client_attempts client_pops : Event Job
  database_runs : Event Job

module _ {Job : Type 0} where
  abbrev call_push : ClientThread Job → Job → ClientThread Job
  call_push runs job = pushing job
  call_push (pushing other) job = pushing other

  abbrev pushed_by : Threads Job → Job → Attempt (Bool × ProducerConsumerQueue Job) → Threads Job
  pushed_by s job sleeps = s
  pushed_by s job (finishes (false, q)) = s
  pushed_by s job (finishes (true, q)) = record s {
    manager = record (s.manager) { db_job_request_queue = q };
    client = runs;
    pushed = s.pushed ++ (job ∷ []);
  }

  abbrev popped_by : Threads Job → Attempt (Option Job × ProducerConsumerQueue Job) → Threads Job
  popped_by s sleeps = s
  popped_by s (finishes (none, q)) = s
  popped_by s (finishes (some job, q)) = record s {
    manager = record (s.manager) { db_job_result_queue = q };
    popped = s.popped ++ (job ∷ []);
  }

  -- A call of `Consume` that waits gives a job when it finishes.
  abbrev consumed_by :
      (Job → Job) → Threads Job → Attempt (Option Job × ProducerConsumerQueue Job) → Threads Job
  consumed_by execute s sleeps = s
  consumed_by execute s (finishes (none, q)) = s
  consumed_by execute s (finishes (some job, q)) = record s {
    manager = record (s.manager) { db_job_request_queue = q };
    database = delivering (execute job);
  }

  abbrev delivered_by : Threads Job → Attempt (Bool × ProducerConsumerQueue Job) → Threads Job
  delivered_by s sleeps = s
  delivered_by s (finishes (false, q)) = s
  delivered_by s (finishes (true, q)) = record s {
    manager = record (s.manager) { db_job_result_queue = q };
    database = consuming;
  }

-- `execute` is `jobContext->mSuccess = jobContext->OnExecute()`, as the job that it leaves.
module _ {Job : Type 0} (q_size : ℕ) (execute : Job → Job) where
  attempt_push : Threads Job → ClientThread Job → Threads Job
  unfolding push_database_job_request
  attempt_push s runs = s
  attempt_push s (pushing job) = pushed_by s job (push_database_job_request q_size s.manager job)

  -- Only in code of its own can the client thread poll for results.
  attempt_pop : Threads Job → ClientThread Job → Threads Job
  unfolding pop_database_job_result
  attempt_pop s runs = popped_by s (pop_database_job_result q_size s.manager)
  attempt_pop s (pushing job) = s

  pub execute_database_jobs : Threads Job → DatabaseThread Job → Threads Job
  execute_database_jobs s consuming =
      consumed_by execute s (consume q_size s.manager.db_job_request_queue true)
  execute_database_jobs s (delivering job) =
      delivered_by s (produce q_size s.manager.db_job_result_queue job true)

  pub step : Threads Job → Event Job → Threads Job
  unfolding attempt_push attempt_pop execute_database_jobs
  step s (client_pushes job) = record s { client = call_push s.client job }
  step s client_attempts = attempt_push s s.client
  step s client_pops = attempt_pop s s.client
  step s database_runs = execute_database_jobs s s.database

  pub run : Threads Job → List (Event Job) → Threads Job
  run s [] = s
  run s (event ∷ events) = run (step s event) events

abbrev pub start : {Job : Type 0} → ℕ → Job → Threads Job
start q_size blank = record {
  manager = record {
    db_job_request_queue = ProducerConsumerQueue.init q_size blank;
    db_job_result_queue = ProducerConsumerQueue.init q_size blank;
  };
  client = runs;
  database = consuming;
  pushed = [];
  popped = [];
}
