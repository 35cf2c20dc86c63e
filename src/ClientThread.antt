-- ===== src/ClientThread.antt =====
-- EasyServer/EasyServer/EasyServer.cpp: a turn of the accept loop, of the client thread's loop, and of its
-- timer.
--
-- What happens while the client thread sleeps, completions and the timer, are other calls. The blocks of
-- a new session's buffers are parameters.
pub mod Connecting
pub mod Accepting
mod Tests
use easy_game_server.Prelude.{
  ℕ, zero, suc, if◌then◌else◌, Bool, true, false, Option, none, some, List, [], ◌∷◌, ◌++◌, map,
  Outcome, returns, crashes, ◌>>=◌, deref,
}
use easy_game_server.ProducerConsumerQueue
use easy_game_server.ProducerConsumerQueue.{ProducerConsumerQueue, Attempt, sleeps, finishes}
use easy_game_server.DatabaseJobContext.{DatabaseJob}
use easy_game_server.ClientSession.{ClientSession, Socket, Effect, Casts, on_connect, disconnect}
use easy_game_server.ClientManager.{ClientManager, create_client, flush_client_send, on_period_work}
use easy_game_server.ClientManager.Heap.{lookup, store}
use easy_game_server.Scheduler.{Scheduler, Push, do_tasks}

-- What `accept` gives, `none` for `INVALID_SOCKET`: a socket waits for room among those pending.
unfoldable pub accepts :
    ℕ → ProducerConsumerQueue Socket → Option Socket → Attempt (Bool × ProducerConsumerQueue Socket)
accepts q_size pending none = finishes (false, pending)
accepts q_size pending (some socket) = ProducerConsumerQueue.produce q_size pending socket true

-- A new client: a session that could not start its first receive is disconnected.
unfoldable pub connects :
    List ℕ → List ℕ → ClientManager → Socket → Outcome (ClientManager × List (ℕ × Effect))
connects send_block recv_block m socket =
    let (address, m') = create_client m socket send_block recv_block in
    deref (lookup m'.sessions address) >>= λ s.
    let (ok, s', effects) = on_connect s in
    returns (
      record m' { sessions = store m'.sessions address (some (if ok then s' else disconnect s')) },
      map (λ e. (address, e)) effects,
    )

pub record ClientThread : Type 0 where
  pub pending : ProducerConsumerQueue Socket
  pub manager : ClientManager

module _ (q_size : ℕ) (send_block recv_block : List ℕ) where
  -- One turn; the result says whether the loop goes on at once or has flushed and sleeps.
  unfoldable pub turn : ClientThread → Outcome (Bool × ClientThread × List (ℕ × Effect))
  turn t = elim (ProducerConsumerQueue.consume q_size t.pending false) [
    | finishes (some socket, rest) ↦
        connects send_block recv_block t.manager socket >>= λ (m, effects).
        returns (true, record { pending = rest; manager = m }, effects)
    | finishes (none, rest) ↦ flush_client_send t.manager >>= λ (m, effects).
        returns (false, record { pending = rest; manager = m }, effects)
    | sleeps ↦ crashes
  ]

  -- Turns until the thread sleeps, at most `fuel` of them.
  unfoldable pub turns : ℕ → ClientThread → Option (Outcome (ClientThread × List (ℕ × Effect)))
  turns zero t = none
  turns (suc fuel) t = elim (turn t) [
    | crashes ↦ some crashes
    | returns (false, t', effects) ↦ some (returns (t', effects))
    | returns (true, t', effects) ↦ elim (turns fuel t') [
      | none ↦ none
      | some outcome ↦ some (outcome >>= λ (t'', later). returns (t'', effects ++ later))
    ]
  ]

-- `run` is what a task does to the clients, and the tasks that it puts off; the two ticks are what
-- `GetTickCount` gives in turn.
module _ {Task : Type 0} (casts : Casts)
    (run : Task → ClientManager → ClientManager × List (Push Task)) where
  unfoldable pub timer_proc :
      ℕ
      → ℕ
      → ℕ
      → Scheduler Task
      → ClientManager
      → List DatabaseJob
      → Option (Scheduler Task × Outcome (ClientManager × List (ℕ × Effect)))
  timer_proc fuel tick later s m results = elim (do_tasks run fuel tick s m) [
    | none ↦ none
    | some (s', m') ↦ some (s', on_period_work casts later m' results)
  ]
