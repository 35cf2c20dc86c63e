-- ===== src/Startup.antt =====
-- EasyServer/EasyServer/EasyServer.cpp: how the server comes up, and its accept loop.
--
-- What a call of the system gives is a parameter, `System`; so is sqlite3.
pub mod Stalling
mod Tests
use easy_game_server.Prelude.{
  ℕ, ◌==◌, ◌&&◌, if◌then◌else◌, Bool, true, false, Option, none, some, List, [], ◌∷◌, codes,
}
use easy_game_server.ProducerConsumerQueue
use easy_game_server.ProducerConsumerQueue.{ProducerConsumerQueue, Attempt, sleeps, finishes}
use easy_game_server.ClientSession.{Socket}
use easy_game_server.DbHelper.{Sqlite, initialize}
use easy_game_server.ClientThread.{accepts}

-- `wsa_startup` is an error code; the others say whether the call succeeds.
pub record System : Type 0 where
  pub wsa_startup : ℕ
  pub makes_socket : Bool
  pub binds : ℕ → Bool
  pub listens : Bool
  pub begins_client_thread : Bool
  pub begins_database_thread : Bool
  pub creates_timer : Bool
  pub sets_timer : Bool

abbrev pub listen_port : ℕ
listen_port = 9001

abbrev pub db_conn_str : List ℕ
db_conn_str = codes "..\\Database\\user_example.db3"

-- `PendingAcceptList`.
abbrev pub pending_size : ℕ
pending_size = 100

-- `main` returns -1, or it goes into its accept loop.
pub data Begun : Type 0 where
  returns_minus_one : Begun
  accept_loop : Begun

abbrev checked : Bool → Begun → Begun
checked ok next = if ok then next else returns_minus_one

module _ {Db Stmt : Type 0} (sqlite : Sqlite Db Stmt) (system : System) where
  open system use {
    wsa_startup, makes_socket, binds, listens, begins_client_thread, begins_database_thread,
  }

  unfoldable pub main : Begun
  unfolding initialize
  main = checked (initialize sqlite db_conn_str).0 (
      checked (wsa_startup == 0) (
        checked makes_socket (
          checked (binds listen_port) (
            checked listens
              (checked begins_client_thread (checked begins_database_thread accept_loop))))))

-- Whether the client thread comes to its loop.
unfoldable pub client_handling_thread : System → Bool
client_handling_thread system = system.creates_timer && system.sets_timer

-- The accept loop, on what `accept` gives in turn.
unfoldable pub accepts_all :
    ProducerConsumerQueue Socket → List (Option Socket) → Attempt (ProducerConsumerQueue Socket)
unfolding accepts
accepts_all pending [] = finishes pending
accepts_all pending (given ∷ later) = elim (accepts pending_size pending given) [
  | sleeps ↦ sleeps
  | finishes (ok, pending') ↦ accepts_all pending' later
]
