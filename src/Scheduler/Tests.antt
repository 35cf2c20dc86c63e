-- ===== src/Scheduler/Tests.antt =====
-- A heartbeat: a task that puts itself off for 1000 ticks, over a world that counts the runs.
use easy_game_server.Prelude.{ℕ, suc, ◌≡◌, refl, arith, none, some, List, [], ◌∷◌}
use easy_game_server.Scheduler.{Scheduler, JobElement, Push, do_tasks}
use easy_game_server.Scheduler.Serving.{do_tasks_serves, serve}
use easy_game_server.Scheduler.Wrapping.{do_tasks_hangs}

abbrev again : ℕ → Push ℕ
again owner = record { owner = owner; task = owner; after = 1000 }

-- The task of an owner is its address.
abbrev beat : ℕ → ℕ → ℕ × List (Push ℕ)
beat owner runs = (suc runs, again owner ∷ [])

abbrev job : ℕ → ℕ → JobElement ℕ
job owner tick = record { owner = owner; task = owner; execution_tick = tick }

abbrev scheduler : Scheduler ℕ
scheduler = record {
  task_queue = job 5 100 ∷ job 6 150 ∷ job 7 900 ∷ [];
  current_tick = 50;
  ref_counts = λ _. 1;
}

do_tasks_serves_example :
    do_tasks beat 3 200 scheduler 0
    ≡ some (
      record {
        task_queue = job 7 900 ∷ job 5 1200 ∷ job 6 1200 ∷ [];
        current_tick = 200;
        ref_counts =
            (serve beat 200
              (job 5 100 ∷ job 6 150 ∷ [])
              (record { later = job 7 900 ∷ []; counts = λ _. 1; world = 0 })).counts;
      },
      2,
    )
do_tasks_serves_example =
    do_tasks_serves beat 3 200 scheduler 0 (job 5 100 ∷ job 6 150 ∷ []) (job 7 900 ∷ [])
      (λ task v. omega arith) refl (omega arith) (omega arith) (omega arith)

abbrev late : Scheduler ℕ
late = record scheduler { task_queue = job 5 4294967200 ∷ [] }

do_tasks_hangs_example : do_tasks beat 1000 4294967295 late 0 ≡ none
do_tasks_hangs_example =
    do_tasks_hangs beat 1000 4294967295 late 0 (job 5 4294967200) [] (again 5) refl (omega arith)
      (λ v. refl) (omega arith)
