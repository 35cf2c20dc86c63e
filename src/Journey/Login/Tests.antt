-- ===== src/Journey/Login/Tests.antt =====
-- Player 7 logs in, whose name in the database is "AB".
use easy_game_server.Prelude.{
  Bool, ℕ, suc, ◌%◌, ◌^◌, ◌≡◌, refl, true, false, ◌-◌, none, some, List, [], ◌∷◌, ◌++◌, replicate,
  arith, returns, Returns,
}
use easy_game_server.PacketType.{LoginRequest, login_request}
use easy_game_server.CircularBuffer
use easy_game_server.CircularBuffer.{CircularBuffer}
use easy_game_server.CircularBuffer.Invariant.{IsValid, contents}
use easy_game_server.DatabaseJobContext.{LoadPlayerData, load_player, load_player_data}
use easy_game_server.DatabaseJobContext.OnExecute.{execute_job}
use easy_game_server.DbHelper.{Sqlite, row}
use easy_game_server.ClientSession.{ClientSession, Casts, pushes_request}
use easy_game_server.PacketHandling.{handle_login}
use easy_game_server.ClientManager.{ClientManager, dispatch_result}
use easy_game_server.ClientManager.Heap.{lookup}
use easy_game_server.TcpClient.{TcpClient, process_packet}
use easy_game_server.TcpClient.Results.{with_recv_buffer}
use easy_game_server.Journey.Login.{login_travels}

-- Each statement is its text, and gives the same row.
abbrev engine : Sqlite (Unit {0}) (List ℕ)
engine = record {
  open_database = λ name. (true, some tt);
  close = λ db. db;
  exec = λ db text. (true, db);
  prepare = λ db text. some text;
  bind_int = λ s i v. (true, s);
  bind_double = λ s i v. (true, s);
  bind_text = λ s i v. (true, s);
  step = λ db s. (row, db, s);
  finalize = λ db s. db;
  column_count = λ s. 4;
  column_int = λ s i. i;
  column_double = λ s i. i;
  column_text = λ s i. some (65 ∷ 66 ∷ 0 ∷ []);
}

abbrev low_word : Casts
low_word = record { to_float = λ x. x % 2 ^ 32; to_double = λ x. x }

abbrev block : CircularBuffer
block = record {
  buffer = replicate 64 0;
  buffer_end = 64;
  a_region_pointer = 0;
  a_region_size = 0;
  b_region_pointer = none;
  b_region_size = 0;
}

abbrev newcomer : ClientSession
newcomer = record {
  ref_count = 0;
  pos_x = 0;
  pos_y = 0;
  player_name = replicate 30 0;
  connected = true;
  logon = false;
  socket = record { handle = 5; answers = λ k. true; calls = 0 };
  player_id = 2 ^ 32 - 1;
  send_buffer = block;
  recv_buffer = block;
}

abbrev manager : ClientManager
manager = record {
  sessions = some newcomer ∷ [];
  client_list = record { sock = 5; session = 0 } ∷ [];
  last_gc_tick = 0;
}

abbrev login_seven : LoginRequest
login_seven = record login_request { player_id = 7 }

login_travels_example :
    (job : LoadPlayerData) × (answer : List ℕ) × (handle_login newcomer login_seven
      ≡ returns (newcomer, pushes_request (load_player (load_player_data 5 7)) ∷ []))
    × (execute_job engine tt (load_player (load_player_data 5 7)) ≡ returns (load_player job, tt))
    × Returns (dispatch_result low_word manager (load_player job)) (λ (m', effects).
      (t' : ClientSession) × (lookup m'.sessions 0 ≡ some t')
      × (t'.logon ≡ true)
      × (t'.player_id ≡ 7)
      × (contents t'.send_buffer ≡ [] ++ answer))
    × ((b : CircularBuffer) (c : TcpClient) (debug : Bool) (fuel : ℕ)
        → IsValid b
        → contents b ≡ answer
        → (c' : TcpClient) × (process_packet debug (suc (suc fuel)) (with_recv_buffer b c)
            ≡ some (returns (c', [])))
          × (c'.login_id ≡ 7))
unfolding CircularBuffer.get_free_space_size
login_travels_example =
    login_travels engine tt tt _ _ (65 ∷ 66 ∷ 0 ∷ []) 2 0 low_word login_seven newcomer newcomer
      manager (record { prepared = refl; stepped = refl; four = refl; named = refl; fits = refl })
      (omega arith) (omega arith) (λ x. omega arith) refl refl refl refl (omega arith) refl
      (omega arith)
