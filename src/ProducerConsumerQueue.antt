-- ===== src/ProducerConsumerQueue.antt =====
-- EasyServer/EasyServer/ProducerConsumerQueue.h: a bounded queue between threads, in a circular array.
--
-- `Produce` and `Consume` are what one attempt under the lock does. An attempt that must wait gives
-- `sleeps`: the thread sleeps on the condition variable, with the lock released and the queue as it
-- was, and makes the next attempt when it is woken. `Waking` models the threads.
pub mod Fifo
pub mod Rotation
pub mod Refine
pub mod Occupancy
pub mod Waking
mod Tests
use easy_game_server.Prelude.{
  ℕ, ◌+◌, ◌-◌, ◌%◌, ◌==◌, if◌then◌else◌, Bool, true, false, Option, none, some, List, get_elem?,
  set, replicate, add_size,
}

pub record ProducerConsumerQueue {ℓ} (A : Type ℓ) : Type ℓ where
  pub queue_array : List A
  pub occupied_size : ℕ
  pub queue_offset : ℕ

pub data Attempt {ℓ} (A : Type ℓ) : Type ℓ where
  sleeps : Attempt A
  finishes : A → Attempt A

-- The template's parameter `QSize`. The `uint32_t` sums wrap like those of `size_t`.
module _ {ℓ} {A : Type ℓ} (q_size : ℕ) where
  -- `blank` is the element whose bytes are all 0.
  pub init : A → ProducerConsumerQueue A
  init blank = record { queue_array = replicate q_size blank; occupied_size = 0; queue_offset = 0 }

  pub produce : ProducerConsumerQueue A → A → Bool → Attempt (Bool × ProducerConsumerQueue A)
  produce q item wait_until_consume =
      if q.occupied_size == q_size
      then (if wait_until_consume then sleeps else finishes (false, q))
      else finishes (
        true,
        record q {
          queue_array = set q.queue_array (add_size q.queue_offset q.occupied_size % q_size) item;
          occupied_size = add_size q.occupied_size 1;
        },
      )

  -- The item is an option: `none` where the call returns `false` (or would read past the array).
  -- `--mOccupiedSize` runs only above 0.
  pub consume : ProducerConsumerQueue A → Bool → Attempt (Option A × ProducerConsumerQueue A)
  consume q wait_until_produce =
      if q.occupied_size == 0
      then (if wait_until_produce then sleeps else finishes (none, q))
      else finishes (
        get_elem? q.queue_array q.queue_offset,
        record q {
          occupied_size = q.occupied_size - 1;
          queue_offset =
              if add_size q.queue_offset 1 == q_size then 0 else add_size q.queue_offset 1;
        },
      )
