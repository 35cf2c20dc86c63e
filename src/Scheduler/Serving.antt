-- ===== src/Scheduler/Serving.antt =====
-- What `DoTasks` runs when the sums of ticks do not wrap.
use easy_game_server.Prelude.{
  ℕ, zero, suc, ◌+◌, ◌^◌, ◌≤◌, ◌<◌, ◌≡◌, refl, ap, ◌∙◌, lt→ltb, le→ltb_false, arith, some, List, [],
  ◌∷◌, ◌++◌, length,
}
use easy_game_server.Scheduler.{
  Scheduler, JobElement, Push, insert, job_of, inc_ref, dec_ref, push_task, push_tasks,
  do_tasks_loop, do_tasks,
}

-- What a due job leaves of the jobs that are not due, the counts and the world.
pub record Left (Task World : Type 0) : Type 0 where
  pub later : List (JobElement Task)
  pub counts : ℕ → ℕ
  pub world : World

module _ {Task : Type 0} where
  -- The scheduler in a turn of the loop.
  abbrev at : ℕ → (ℕ → ℕ) → List (JobElement Task) → Scheduler Task
  at tick counts queue = record { task_queue = queue; current_tick = tick; ref_counts = counts }

  abbrev pub put_off : ℕ → List (JobElement Task) → List (Push Task) → List (JobElement Task)
  put_off tick later [] = later
  put_off tick later (p ∷ pushes) = put_off tick (insert later (job_of tick p)) pushes

  abbrev pub counted : (ℕ → ℕ) → List (Push Task) → ℕ → ℕ
  counted counts [] = counts
  counted counts (p ∷ pushes) = counted (inc_ref counts p.owner) pushes

  abbrev pub AllDue : ℕ → List (JobElement Task) → Type 0
  AllDue tick [] = Unit
  AllDue tick (job ∷ jobs) = (job.execution_tick ≤ tick) × AllDue tick jobs

  abbrev pub AllLater : ℕ → List (JobElement Task) → Type 0
  AllLater tick [] = Unit
  AllLater tick (job ∷ jobs) = (tick < job.execution_tick) × AllLater tick jobs

  -- Tasks are put off by some time that does not wrap.
  abbrev pub AllAfter : ℕ → List (Push Task) → Type 0
  AllAfter tick [] = Unit
  AllAfter tick (p ∷ pushes) = (0 < p.after) × (p.after + tick < 2 ^ 32) × AllAfter tick pushes

  insert-AllLater :
      (tick : ℕ) (later : List (JobElement Task)) (job : JobElement Task)
      → tick < job.execution_tick
      → AllLater tick later
      → AllLater tick (insert later job)
  insert-AllLater tick [] job h k = (h, tt)
  insert-AllLater tick (other ∷ later) job h k =
      ground (arith, h, k, insert-AllLater tick later job h k.1)

  -- A job that is not due goes behind those that are.
  insert_behind :
      (tick : ℕ) (due later : List (JobElement Task)) (job : JobElement Task)
      → AllDue tick due
      → tick < job.execution_tick
      → insert (due ++ later) job ≡ due ++ insert later job
  insert_behind tick [] later job h k = refl
  insert_behind tick (other ∷ due) later job h k =
      ground (arith, h, k, insert_behind tick due later job h.1 k)

  push_tasks_lem :
      (tick : ℕ) (counts : ℕ → ℕ) (due later : List (JobElement Task)) (pushes : List (Push Task))
      → AllDue tick due
      → AllLater tick later
      → AllAfter tick pushes
      → (push_tasks (at tick counts (due ++ later)) pushes
          ≡ at tick (counted counts pushes) (due ++ put_off tick later pushes))
        × AllLater tick (put_off tick later pushes)
  unfolding push_task
  push_tasks_lem tick counts due later [] h k a = (refl, k)
  push_tasks_lem tick counts due later (p ∷ pushes) h k (soon, fits, rest) =
      let job = job_of tick p in
      let late : tick < job.execution_tick = omega arith in
      let (e, l) =
        push_tasks_lem tick (inc_ref counts p.owner) due (insert later job) pushes h
          (insert-AllLater tick later job late k) rest in
      (rw (insert_behind tick due later job h late) e, l)

module _ {Task World : Type 0} (run : Task → World → World × List (Push Task)) where
  -- Each due job once, in order: it runs, what it puts off joins the later jobs, and its owner is
  -- released.
  abbrev pub serve : ℕ → List (JobElement Task) → Left Task World → Left Task World
  serve tick [] left = left
  serve tick (job ∷ due) left =
      let (w, pushes) = run job.task left.world in
      serve tick due (record {
        later = put_off tick left.later pushes;
        counts = dec_ref (counted left.counts pushes) job.owner;
        world = w;
      })

  loop_serves :
      (fuel tick : ℕ) (counts : ℕ → ℕ) (w : World) (due later : List (JobElement Task))
      → ((task : Task) (v : World) → AllAfter tick (run task v).1)
      → AllDue tick due
      → AllLater tick later
      → length due < fuel
      → let left = serve tick due (record { later = later; counts = counts; world = w }) in
        do_tasks_loop run fuel (at tick counts (due ++ later)) w
        ≡ some (at tick left.counts left.later, left.world)
  unfolding do_tasks_loop
  loop_serves zero tick counts w due later a h k f = absurd (omega arith)
  loop_serves (suc fuel) tick counts w [] [] a h k f = refl
  loop_serves (suc fuel) tick counts w [] (job ∷ later) a h k f =
      rw (lt→ltb tick job.execution_tick k.0, do_tasks_loop) refl
  loop_serves (suc fuel) tick counts w (job ∷ due) later a h k f =
      let pushes = (run job.task w).1 in
      let (e, l) = push_tasks_lem tick counts (job ∷ due) later pushes h k (a job.task w) in
      rw (le→ltb_false tick job.execution_tick h.0, do_tasks_loop, e)
        (loop_serves fuel tick (dec_ref (counted counts pushes) job.owner) (run job.task w).0 due
          (put_off tick later pushes) a h.1 l (omega arith))

  -- `DoTasks` on jobs in the queue's order of which the first ones are due and the others not, where tasks
  -- are put off by some time whose sum with the tick does not wrap: given more rounds than jobs that are
  -- due, it runs each of these once, in order, and releases its owner. The others stay, and what has been
  -- put off is among them.
  pub do_tasks_serves :
      (fuel tick : ℕ) (s : Scheduler Task) (w : World) (due later : List (JobElement Task))
      → ((task : Task) (v : World) → AllAfter tick (run task v).1)
      → s.task_queue ≡ due ++ later
      → AllDue tick due
      → AllLater tick later
      → length due < fuel
      → let left = serve tick due (record { later = later; counts = s.ref_counts; world = w }) in
        do_tasks run fuel tick s w
        ≡ some (
          record { task_queue = left.later; current_tick = tick; ref_counts = left.counts },
          left.world,
        )
  unfolding do_tasks
  do_tasks_serves fuel tick s w due later a e h k f =
      ap (λ queue. do_tasks_loop run fuel (at tick s.ref_counts queue) w) e
      ∙ loop_serves fuel tick s.ref_counts w due later a h k f
