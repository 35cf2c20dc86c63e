-- ===== src/DatabaseJobManager/Rounds.antt =====
-- One job pushed by the client thread, and two turns of the database thread, in the states through
-- which the queues fill.
use easy_game_server.Prelude.{ℕ, suc, ◌<◌, ◌≡◌, refl, [], ◌∷◌, ◌++◌, arith}
use easy_game_server.ProducerConsumerQueue.{ProducerConsumerQueue}
use easy_game_server.ProducerConsumerQueue.Refine.{IsValid}
use easy_game_server.ProducerConsumerQueue.Occupancy.{produce_full, produce_room, consume_item}
use easy_game_server.DatabaseJobManager.{
  runs, pushing, consuming, delivering, Threads, client_pushes, client_attempts, database_runs,
  push_database_job_request, attempt_push, execute_database_jobs, step,
}

-- Both queues are full, the client thread is in `PushDatabaseJobRequest` and the database thread
-- delivers a result.
pub record IsStuck {Job : Type 0} (q_size : ℕ) (s : Threads Job) : Type 0 where
  pub job : Job
  pub result : Job
  pub client_waits : s.client ≡ pushing job
  pub database_waits : s.database ≡ delivering result
  pub requests_full : s.manager.db_job_request_queue.occupied_size ≡ q_size
  pub results_full : s.manager.db_job_result_queue.occupied_size ≡ q_size

module _ {Job : Type 0} (q_size : ℕ) (execute : Job → Job) where
  -- How far a burst has come: `n` results are there and the database thread is free, or the result
  -- queue is full, the thread cannot deliver, and `m` requests are there.
  pub record Filling (n : ℕ) (s : Threads Job) : Type 0 where
    pub requests : IsValid q_size s.manager.db_job_request_queue
    pub results : IsValid q_size s.manager.db_job_result_queue
    pub client_runs : s.client ≡ runs
    pub database_free : s.database ≡ consuming
    pub no_requests : s.manager.db_job_request_queue.occupied_size ≡ 0
    pub n_results : s.manager.db_job_result_queue.occupied_size ≡ n

  pub record Jammed (m : ℕ) (s : Threads Job) : Type 0 where
    pub result : Job
    pub requests : IsValid q_size s.manager.db_job_request_queue
    pub client_runs : s.client ≡ runs
    pub database_waits : s.database ≡ delivering result
    pub m_requests : s.manager.db_job_request_queue.occupied_size ≡ m
    pub results_full : s.manager.db_job_result_queue.occupied_size ≡ q_size

  -- The steps of a round, as equations.
  push_steps :
      (s : Threads Job) (job : Job)
      → s.client ≡ runs
      → IsValid q_size s.manager.db_job_request_queue
      → s.manager.db_job_request_queue.occupied_size < q_size
      → (r : ProducerConsumerQueue Job) × (step q_size execute
            (step q_size execute s (client_pushes job))
            client_attempts
          ≡ record s {
            manager = record (s.manager) { db_job_request_queue = r };
            pushed = s.pushed ++ (job ∷ []);
          })
        × IsValid q_size r
        × (r.occupied_size ≡ suc s.manager.db_job_request_queue.occupied_size)
  unfolding step attempt_push push_database_job_request
  push_steps s job e v h =
      let (r, f, w, o) = produce_room q_size s.manager.db_job_request_queue job v h in
      (r, ground (arith, e, f), w, o)

  consume_step :
      (s : Threads Job)
      → s.database ≡ consuming
      → IsValid q_size s.manager.db_job_request_queue
      → 0 < s.manager.db_job_request_queue.occupied_size
      → (job : Job) × (r : ProducerConsumerQueue Job) × (step q_size execute s database_runs
          ≡ record s {
            manager = record (s.manager) { db_job_request_queue = r };
            database = delivering (execute job);
          })
        × IsValid q_size r
        × (suc r.occupied_size ≡ s.manager.db_job_request_queue.occupied_size)
  unfolding step execute_database_jobs
  consume_step s e v h =
      let (job, r, f, w, o) = consume_item q_size s.manager.db_job_request_queue v h in
      (job, r, ground (arith, e, f), w, o)

  deliver_step :
      (s : Threads Job) (job : Job)
      → s.database ≡ delivering job
      → IsValid q_size s.manager.db_job_result_queue
      → s.manager.db_job_result_queue.occupied_size < q_size
      → (r : ProducerConsumerQueue Job) × (step q_size execute s database_runs ≡ record s {
        manager = record (s.manager) { db_job_result_queue = r };
        database = consuming;
      })
        × IsValid q_size r
        × (r.occupied_size ≡ suc s.manager.db_job_result_queue.occupied_size)
  unfolding step execute_database_jobs
  deliver_step s job e v h =
      let (r, f, w, o) = produce_room q_size s.manager.db_job_result_queue job v h in
      (r, ground (arith, e, f), w, o)

  deliver_full :
      (s : Threads Job) (job : Job)
      → s.database ≡ delivering job
      → s.manager.db_job_result_queue.occupied_size ≡ q_size
      → step q_size execute s database_runs ≡ s
  unfolding step execute_database_jobs
  deliver_full s job e h =
      ground (arith, e, produce_full q_size s.manager.db_job_result_queue job h)

  push_full :
      (s : Threads Job) (job : Job)
      → s.client ≡ runs
      → s.manager.db_job_request_queue.occupied_size ≡ q_size
      → step q_size execute (step q_size execute s (client_pushes job)) client_attempts
        ≡ record s { client = pushing job }
  unfolding step attempt_push push_database_job_request
  push_full s job e h = ground (arith, e, produce_full q_size s.manager.db_job_request_queue job h)

  abbrev pub round : Threads Job → Job → Threads Job
  round s job =
      step q_size execute
        (step q_size execute
          (step q_size execute (step q_size execute s (client_pushes job)) client_attempts)
          database_runs)
        database_runs

  pub Filling-round :
      (n : ℕ) (s : Threads Job) (job : Job)
      → n < q_size
      → Filling n s
      → Filling (suc n) (round s job)
  Filling-round n s job h v =
      let (r, f, w, o) = push_steps s job v.client_runs v.requests (omega (arith, v)) in
      let t : Threads Job = record s {
        manager = record (s.manager) { db_job_request_queue = r };
        pushed = s.pushed ++ (job ∷ []);
      } in
      let (x, r', f', w', o') = consume_step t v.database_free w (omega (arith, v, o)) in
      let u : Threads Job = record t {
        manager = record (t.manager) { db_job_request_queue = r' };
        database = delivering (execute x);
      } in
      let (q, g, z, p) = deliver_step u (execute x) refl v.results (omega (arith, v)) in
      rw (f, f', g)
        (record {
          requests = w';
          results = z;
          client_runs = v.client_runs;
          database_free = refl;
          no_requests = omega (arith, v, o, o');
          n_results = omega (arith, v, p);
        })

  pub Filling-jams : (s : Threads Job) (job : Job) → Filling q_size s → Jammed 0 (round s job)
  Filling-jams s job v =
      let (r, f, w, o) = push_steps s job v.client_runs v.requests (omega (arith, v, v.requests)) in
      let t : Threads Job = record s {
        manager = record (s.manager) { db_job_request_queue = r };
        pushed = s.pushed ++ (job ∷ []);
      } in
      let (x, r', f', w', o') = consume_step t v.database_free w (omega (arith, v, o)) in
      let u : Threads Job = record t {
        manager = record (t.manager) { db_job_request_queue = r' };
        database = delivering (execute x);
      } in
      rw (f, f', deliver_full u (execute x) refl v.n_results)
        (record {
          result = execute x;
          requests = w';
          client_runs = v.client_runs;
          database_waits = refl;
          m_requests = omega (arith, v, o, o');
          results_full = v.n_results;
        })

  pub Jammed-round :
      (m : ℕ) (s : Threads Job) (job : Job) → m < q_size → Jammed m s → Jammed (suc m) (round s job)
  Jammed-round m s job h v =
      let (r, f, w, o) = push_steps s job v.client_runs v.requests (omega (arith, v)) in
      let t : Threads Job = record s {
        manager = record (s.manager) { db_job_request_queue = r };
        pushed = s.pushed ++ (job ∷ []);
      } in
      let e = deliver_full t v.result v.database_waits v.results_full in
      rw (f, e, e)
        (record {
          result = v.result;
          requests = w;
          client_runs = v.client_runs;
          database_waits = v.database_waits;
          m_requests = omega (arith, v, o);
          results_full = v.results_full;
        })

  pub IsStuck-round : (s : Threads Job) (job : Job) → Jammed q_size s → IsStuck q_size (round s job)
  IsStuck-round s job v =
      let t : Threads Job = record s { client = pushing job } in
      let e = deliver_full t v.result v.database_waits v.results_full in
      rw (push_full s job v.client_runs v.m_requests, e, e)
        (record {
          job = job;
          result = v.result;
          client_waits = refl;
          database_waits = v.database_waits;
          requests_full = v.m_requests;
          results_full = v.results_full;
        })
