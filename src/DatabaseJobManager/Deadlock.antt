-- ===== src/DatabaseJobManager/Deadlock.antt =====
-- What happens when the client thread pushes jobs without polling for results: both threads wait for
-- each other for ever.
use easy_game_server.Prelude.{
  ℕ, zero, suc, ◌+◌, ◌*◌, ◌^◌, ◌≤◌, ◌<◌, ◌≡◌, refl, ap, sym, subst, ◌∙◌, List, [], ◌∷◌, length,
  arith,
}
use easy_game_server.ProducerConsumerQueue.Refine.{length-contents, init-IsValid}
use easy_game_server.ProducerConsumerQueue.Occupancy.{produce_full}
use easy_game_server.DatabaseJobManager.{
  Threads, Event, client_pushes, client_attempts, client_pops, database_runs,
  push_database_job_request, attempt_push, attempt_pop, execute_database_jobs, step, run, start,
}
use easy_game_server.DatabaseJobManager.Rounds.{
  IsStuck, Filling, Jammed, round, Filling-round, Filling-jams, Jammed-round, IsStuck-round,
}

-- The client pushes each job, and then the database thread has two turns; nothing is popped.
abbrev pub burst : {Job : Type 0} → List Job → List (Event Job)
burst [] = []
burst (job ∷ jobs) =
    client_pushes job ∷ client_attempts ∷ database_runs ∷ database_runs ∷ burst jobs

module _ {Job : Type 0} (q_size : ℕ) (execute : Job → Job) where
  IsStuck-step :
      (s : Threads Job) (event : Event Job) → IsStuck q_size s → step q_size execute s event ≡ s
  unfolding step attempt_push attempt_pop execute_database_jobs push_database_job_request
  IsStuck-step s (client_pushes job) v = ground (arith, v)
  IsStuck-step s client_attempts v =
      ground (arith, v, produce_full q_size s.manager.db_job_request_queue v.job)
  IsStuck-step s client_pops v = ground (arith, v)
  IsStuck-step s database_runs v =
      ground (arith, v, produce_full q_size s.manager.db_job_result_queue v.result)

  -- From then on nothing that either thread does changes anything.
  IsStuck-run :
      (events : List (Event Job)) (s : Threads Job)
      → IsStuck q_size s
      → run q_size execute s events ≡ s
  unfolding run
  IsStuck-run [] s v = refl
  IsStuck-run (event ∷ events) s v =
      ap (λ t. run q_size execute t events) (IsStuck-step s event v) ∙ IsStuck-run events s v

  Jammed-burst :
      (jobs : List Job) (m k : ℕ) (s : Threads Job)
      → m + k ≡ q_size
      → suc k ≤ length jobs
      → Jammed q_size execute m s
      → IsStuck q_size (run q_size execute s (burst jobs))
  unfolding run
  Jammed-burst [] m k s e h v = absurd (omega arith)
  Jammed-burst (job ∷ jobs) m zero s e h v =
      let stuck =
        IsStuck-round q_size execute s job
          (subst (λ j. Jammed q_size execute j s) (omega arith) v) in
      subst (IsStuck q_size) (sym (IsStuck-run (burst jobs) (round q_size execute s job) stuck))
        stuck
  Jammed-burst (job ∷ jobs) m (suc k) s e h v =
      Jammed-burst jobs (suc m) k (round q_size execute s job) (omega arith) (omega arith)
        (Jammed-round q_size execute m s job (omega arith) v)

  Filling-burst :
      (jobs : List Job) (n k : ℕ) (s : Threads Job)
      → n + k ≡ q_size
      → suc (suc (k + q_size)) ≤ length jobs
      → Filling q_size execute n s
      → IsStuck q_size (run q_size execute s (burst jobs))
  unfolding run
  Filling-burst [] n k s e h v = absurd (omega arith)
  Filling-burst (job ∷ jobs) n zero s e h v =
      Jammed-burst jobs 0 q_size (round q_size execute s job) (omega arith) (omega arith) (
        Filling-jams q_size execute s job (subst (λ j. Filling q_size execute j s) (omega arith) v))
  Filling-burst (job ∷ jobs) n (suc k) s e h v =
      Filling-burst jobs (suc n) k (round q_size execute s job) (omega arith) (omega arith)
        (Filling-round q_size execute n s job (omega arith) v)

  -- From empty queues, of a size above 0 and below 2 ^ 31, the client thread pushes at least twice
  -- their size and two jobs more and does not poll for results in between, and the database thread
  -- has two turns after each push. This brings both threads into a state that no step of either
  -- leaves, whatever comes next: the client thread waits for room among the requests, the database
  -- thread for room among the results.
  pub burst_deadlocks :
      (jobs : List Job) (blank : Job)
      → 0 < q_size
      → q_size < 2 ^ 31
      → 2 * q_size + 2 ≤ length jobs
      → let s = run q_size execute (start q_size blank) (burst jobs) in
        IsStuck q_size s × ((events : List (Event Job)) → run q_size execute s events ≡ s)
  burst_deadlocks jobs blank h k l =
      let v = init-IsValid q_size blank h k in
      let stuck =
        Filling-burst jobs 0 q_size (start q_size blank) (omega arith) (omega arith) (record {
          requests = v.0;
          results = v.0;
          client_runs = refl;
          database_free = refl;
          no_requests = omega (arith, ap length v.1, length-contents q_size v.0);
          n_results = omega (arith, ap length v.1, length-contents q_size v.0);
        }) in
      (
        stuck,
        λ events. IsStuck-run events (run q_size execute (start q_size blank) (burst jobs)) stuck,
      )
