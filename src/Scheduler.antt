-- ===== src/Scheduler.antt =====
-- EasyServer/EasyServer/Scheduler.h and Scheduler.cpp: the client thread's tasks that are put off.
--
-- A task is any type with what a run of it does to the rest of the server: a parameter, as the source's
-- `std::function` is. A priority queue is the list of its jobs in the order in which they come to its
-- top; of jobs with one tick, which the standard leaves open, the older comes first.
pub mod Serving
pub mod Wrapping
mod Tests
use easy_game_server.Prelude.{
  ℕ, zero, suc, ◌+◌, ◌-◌, ◌%◌, ◌^◌, ltb, ◌==◌, if◌then◌else◌, Bool, true, false, Option, none, some,
  List, [], ◌∷◌,
}

pub record JobElement (Task : Type 0) : Type 0 where
  pub owner : ℕ
  pub task : Task
  pub execution_tick : ℕ

-- A call of `PushTask` that a task makes while it runs (`CallFuncAfter`).
pub record Push (Task : Type 0) : Type 0 where
  pub owner : ℕ
  pub task : Task
  pub after : ℕ

-- `ref_counts` are the `mRefCount`s of the owners, by address.
pub record Scheduler (Task : Type 0) : Type 0 where
  pub task_queue : List (JobElement Task)
  pub current_tick : ℕ
  pub ref_counts : ℕ → ℕ

-- `IncRefCount` and `DecRefCount` of the owner.
abbrev pub inc_ref : (ℕ → ℕ) → ℕ → ℕ → ℕ
inc_ref counts owner a = if owner == a then (counts a + 1) % 2 ^ 32 else counts a

abbrev pub dec_ref : (ℕ → ℕ) → ℕ → ℕ → ℕ
dec_ref counts owner a = if owner == a then (counts a + 2 ^ 32 - 1) % 2 ^ 32 else counts a

module _ {Task : Type 0} where
  unfoldable pub init : ℕ → (ℕ → ℕ) → Scheduler Task
  init tick ref_counts = record { task_queue = []; current_tick = tick; ref_counts = ref_counts }

  abbrev pub insert : List (JobElement Task) → JobElement Task → List (JobElement Task)
  insert [] job = job ∷ []
  insert (other ∷ queue) job =
      if ltb job.execution_tick other.execution_tick
      then job ∷ other ∷ queue
      else other ∷ insert queue job

  -- `after + mCurrentTick` is a sum of 32-bit words, which is then widened.
  abbrev pub job_of : ℕ → Push Task → JobElement Task
  job_of tick p = record {
    owner = p.owner;
    task = p.task;
    execution_tick = (p.after + tick) % 2 ^ 32;
  }

  unfoldable pub push_task : Scheduler Task → Push Task → Scheduler Task
  push_task s p = record s {
    task_queue = insert s.task_queue (job_of s.current_tick p);
    ref_counts = inc_ref s.ref_counts p.owner;
  }

  abbrev pub push_tasks : Scheduler Task → List (Push Task) → Scheduler Task
  push_tasks s [] = s
  push_tasks s (p ∷ pushes) = push_tasks (push_task s p) pushes

  abbrev pub pop : List (JobElement Task) → List (JobElement Task)
  pop [] = []
  pop (job ∷ queue) = queue

  -- After a task has run: the owner's count goes down, and the top is taken off.
  abbrev pub finished : Scheduler Task → ℕ → Scheduler Task
  finished s owner = record s {
    task_queue = pop s.task_queue;
    ref_counts = dec_ref s.ref_counts owner;
  }

-- `run` is what a task does to the world and the tasks that it puts off.
module _ {Task World : Type 0} (run : Task → World → World × List (Push Task)) where
  -- The loop of `DoTasks`, for at most `fuel` rounds.
  unfoldable pub do_tasks_loop : ℕ → Scheduler Task → World → Option (Scheduler Task × World)
  do_tasks_loop zero s w = none
  do_tasks_loop (suc fuel) s w = elim s.task_queue [
    | [] ↦ some (s, w)
    | job ∷ queue ↦ elim (ltb s.current_tick job.execution_tick) [
      | true ↦ some (s, w)
      | false ↦
          do_tasks_loop fuel (finished (push_tasks s (run job.task w).1) job.owner)
            (run job.task w).0
    ]
  ]

  -- `tick` is what `GetTickCount` gives.
  unfoldable pub do_tasks : ℕ → ℕ → Scheduler Task → World → Option (Scheduler Task × World)
  unfolding do_tasks_loop
  do_tasks fuel tick s w = do_tasks_loop fuel (record s { current_tick = tick }) w
