-- ===== src/ClientManager/Tests.antt =====
-- Three sessions in memory, two of them in the client list, of which one sends.
use easy_game_server.Prelude.{
  Outcome, Bool, false, ℕ, ◌≡◌, refl, true, none, some, List, [], ◌∷◌, replicate, Returns,
}
use easy_game_server.ClientSession.{ClientSession, init}
use easy_game_server.ClientManager.{ClientManager, Client, broadcast_packet, create_client}
use easy_game_server.ClientManager.Collecting.{kept, collect_garbage_sessions_lem}
use easy_game_server.ClientManager.{collect_garbage_sessions}
use easy_game_server.ClientManager.Broadcast.{has}
use easy_game_server.Prelude.{arith, returns}
use easy_game_server.DatabaseJobContext.{DatabaseJob, update_player, update_player_data}
use easy_game_server.ClientSession.{
  Casts, database_job_done, on_connect, post_recv, send_request, send_flush, disconnect,
}
use easy_game_server.PacketHandling.{
  recv_completion, on_read, read_loop, read_round, handler_table, handler_pkt_cs_login,
}
use easy_game_server.CircularBuffer
use easy_game_server.ClientManager.{on_period_work}
use easy_game_server.ClientManager.{flush_client_send, dispatch_database_job_results}
use easy_game_server.ClientManager.Flushing.{sent_off, flush_client_send_lem}
use easy_game_server.ClientManager.Heap.{lookup}
use easy_game_server.ClientManager.History.{
  perform, Course, Call, creates, broadcasts, flushes, works, acts, GoesOnWell, goes_on, run,
  run-IsWellFormed,
}
use easy_game_server.ClientManager.Acting.{act, connects, receives, requests}
use easy_game_server.ClientManager.Broadcast.{sent, broadcast_packet_lem}

abbrev session : ℕ → ClientSession
session handle =
    record (init (record { handle = handle; answers = λ _. true; calls = 0 }) (replicate 8 0)
      (replicate 8 0)) { connected = true }

abbrev clients : List Client
clients = record { sock = 5; session = 2 } ∷ record { sock = 9; session = 0 } ∷ []

abbrev manager : ClientManager
manager = record {
  sessions = some (session 9) ∷ some (session 5) ∷ some (session 5) ∷ none ∷ [];
  client_list = clients;
  last_gc_tick = 0;
}

-- Socket 5 is in the list: the new session is not.
create_client-manager : (create_client manager (session 5).socket [] []).1.client_list ≡ clients
unfolding create_client init
create_client-manager = refl

broadcast_packet_lem_example : Returns (broadcast_packet manager 0 (4 ∷ 0 ∷ 0 ∷ 0 ∷ [])) λ after.
    (after.client_list ≡ clients)
    × ((a : ℕ)
        → lookup after.sessions a
          ≡ sent 0 (4 ∷ 0 ∷ 0 ∷ 0 ∷ []) clients a (lookup manager.sessions a))
unfolding init
broadcast_packet_lem_example =
    broadcast_packet_lem manager 0 (4 ∷ 0 ∷ 0 ∷ 0 ∷ [])
      (refl, (session 5, refl), (refl, (session 9, refl), tt))

-- The session of socket 9 is disconnected, with nothing pending; that of socket 5 has a receive
-- pending.
abbrev after_loss : ClientManager
after_loss = record manager {
  sessions =
      some (record (session 9) { connected = false })
      ∷ some (session 5)
      ∷ some (record (session 5) { connected = false; ref_count = 1 })
      ∷ none
      ∷ [];
}

collect_garbage_sessions_lem_example :
    Returns (collect_garbage_sessions after_loss) λ after.
      (a : ℕ) → lookup after.sessions a ≡ kept (has clients a) (lookup after_loss.sessions a)
unfolding init
collect_garbage_sessions_lem_example =
    collect_garbage_sessions_lem after_loss (refl, (_, refl), (refl, (_, refl), tt))

flush_client_send_lem_example : Returns (flush_client_send manager) λ (after, effects).
    (after.client_list ≡ clients)
    × ((a : ℕ) → lookup after.sessions a ≡ sent_off (has clients a) (lookup manager.sessions a))
unfolding init
flush_client_send_lem_example =
    flush_client_send_lem manager (refl, (session 5, refl), (refl, (session 9, refl), tt))

abbrev casts : Casts
casts = record { to_float = λ x. x; to_double = λ x. x }

-- An update of the session on socket 5 that succeeded, and one for socket 9 that failed.
abbrev results : List DatabaseJob
results =
    update_player
      (record (update_player_data 5 1) { base = record { sock_key = some 5; success = true } })
    ∷ update_player (update_player_data 9 2)
    ∷ []

abbrev updated : ClientManager
updated = record manager {
  sessions = some (session 9) ∷ some (session 5) ∷ some (session 5) ∷ none ∷ [];
}

updates_return : (dispatch_database_job_results casts manager results) ≡ returns (updated, [])
unfolding dispatch_database_job_results database_job_done init
updates_return = refl

abbrev no_clients : ClientManager
no_clients = record { sessions = []; client_list = []; last_gc_tick = 0 }

-- A socket's number comes again before its first session is collected.
abbrev day : List Call
day =
    creates (session 5).socket (replicate 8 0) (replicate 8 0)
    ∷ creates (session 9).socket (replicate 8 0) (replicate 8 0)
    ∷ creates (session 5).socket (replicate 8 0) (replicate 8 0)
    ∷ broadcasts 0 (4 ∷ 0 ∷ 0 ∷ 0 ∷ [])
    ∷ acts 0 connects
    ∷ acts 0 (receives 3 false (8 ∷ 0 ∷ 1 ∷ 0 ∷ 7 ∷ 0 ∷ []))
    ∷ acts 1 (requests (4 ∷ 0 ∷ 0 ∷ 0 ∷ []))
    ∷ flushes
    ∷ works 5000 results
    ∷ []

run-IsWellFormed_example : Returns (run casts no_clients day) GoesOnWell
run-IsWellFormed_example =
    run-IsWellFormed casts no_clients day
      (
        (omega arith, omega arith),
        (
          (omega arith, omega arith),
          ((omega arith, omega arith), (tt, (tt, (tt, (tt, (tt, ((tt, (tt, tt)), tt))))))),
        ),
      )
      tt

abbrev is_on : Outcome Course → Bool
is_on (returns (goes_on m)) = true
is_on _ = false

day-goes_on : is_on (run casts no_clients day) ≡ true
unfolding run perform create_client act recv_completion on_read read_loop read_round handler_table
    handler_pkt_cs_login on_connect post_recv init broadcast_packet flush_client_send on_period_work
    collect_garbage_sessions dispatch_database_job_results send_request send_flush disconnect
    CircularBuffer.get_free_space_size CircularBuffer.init CircularBuffer.peek CircularBuffer.commit
    CircularBuffer.get_stored_size CircularBuffer.get_buffer CircularBuffer.get_contiguous_bytes
    database_job_done
day-goes_on = refl
