-- ===== src/Scheduler/Wrapping.antt =====
-- What `DoTasks` does near the end of the 32-bit ticks.
use easy_game_server.Prelude.{
  ℕ, zero, suc, ◌+◌, ◌%◌, ◌^◌, ◌≤◌, ◌<◌, ◌≡◌, refl, ap, ◌∙◌, lt→ltb, le→ltb_false, none, List, [],
  ◌∷◌,
}
use easy_game_server.Scheduler.{Scheduler, JobElement, Push, push_task, do_tasks_loop, do_tasks}

module _ {Task World : Type 0} (run : Task → World → World × List (Push Task)) where
  loop_hangs :
      (fuel tick : ℕ) (counts : ℕ → ℕ) (w : World) (job : JobElement Task)
      (queue : List (JobElement Task)) (p : Push Task)
      → job.execution_tick ≤ tick
      → ((v : World) → (run job.task v).1 ≡ p ∷ [])
      → (p.after + tick) % 2 ^ 32 < job.execution_tick
      → do_tasks_loop run fuel
          (record { task_queue = job ∷ queue; current_tick = tick; ref_counts = counts })
          w
        ≡ none
  unfolding do_tasks_loop push_task
  loop_hangs zero tick counts w job queue p due again wraps = refl
  loop_hangs (suc fuel) tick counts w job queue p due again wraps =
      rw
        (
          le→ltb_false tick job.execution_tick due,
          do_tasks_loop,
          again w,
          lt→ltb ((p.after + tick) % 2 ^ 32) job.execution_tick wraps,
        )
        (loop_hangs fuel tick _ (run job.task w).0 job queue p due again wraps)

  -- A job at the top that is due and whose task puts one task off, as a heartbeat does itself, so that
  -- the sum of the ticks wraps below the job's own: the new job comes before it and is taken off in its
  -- place. The job runs again for ever, and `DoTasks` has not returned after any number of rounds.
  pub do_tasks_hangs :
      (fuel tick : ℕ) (s : Scheduler Task) (w : World) (job : JobElement Task)
      (queue : List (JobElement Task)) (p : Push Task)
      → s.task_queue ≡ job ∷ queue
      → job.execution_tick ≤ tick
      → ((v : World) → (run job.task v).1 ≡ p ∷ [])
      → (p.after + tick) % 2 ^ 32 < job.execution_tick
      → do_tasks run fuel tick s w ≡ none
  unfolding do_tasks
  do_tasks_hangs fuel tick s w job queue p e due again wraps =
      ap
        (λ q.
          do_tasks_loop run fuel
            (record { task_queue = q; current_tick = tick; ref_counts = s.ref_counts }) w)
        e
      ∙ loop_hangs fuel tick s.ref_counts w job queue p due again wraps
