-- ===== src/Journey/Login.antt =====
-- A login on its way: PacketHandling.cpp, DatabaseJobContext.cpp and ClientManager.cpp of
-- EasyServer/EasyServer, then TcpClient.cpp of Cocos2dxGameClient/Classes.
mod Tests
use easy_game_server.Prelude.{
  Bool, ℕ, suc, ◌≤◌, ◌<◌, ◌^◌, ◌≡◌, ◌≢◌, refl, ap, sym, ◌∙◌, true, some, inl, List, [], ◌∷◌, ◌++◌,
  length, replicate, take, take_all, find_nul, find_nul-write_bytes, write_bytes,
  length-write_bytes, arith, returns, Returns, Returns_value, map, append-nil, leb, if◌then◌else◌,
}
use easy_game_server.PacketType.{
  LoginRequest, login_result, minus_one, max_name_len, login_result_bytes,
}
use easy_game_server.CircularBuffer
use easy_game_server.CircularBuffer.{CircularBuffer}
use easy_game_server.CircularBuffer.Invariant.{IsValid, contents}
use easy_game_server.DatabaseJobContext.{LoadPlayerData, load_player, load_player_data}
use easy_game_server.DatabaseJobContext.OnExecute.{sql_select_test, execute_job}
use easy_game_server.DatabaseJobContext.OnExecute.Results.{execute_job_loads}
use easy_game_server.DbHelper.{Sqlite, row}
use easy_game_server.ClientSession.{ClientSession, Casts, pushes_request, database_job_done}
use easy_game_server.ClientSession.Login.{answer_to, database_job_done_lem}
use easy_game_server.PacketHandling.{handle_login}
use easy_game_server.ClientManager.{ClientManager, find, dispatch_result}
use easy_game_server.ClientManager.Heap.{lookup, store, lookup-store_same}
use easy_game_server.TcpClient.{TcpClient, process_packet, login_received}
use easy_game_server.TcpClient.Results.{
  Result, login, IsResult, process, with_recv_buffer, receiving,
}
use easy_game_server.TcpClient.Receiving.{process_packet_processes}

-- The player's row: what sqlite3 gives for the job's statement with the id bound to it.
pub record IsRow {Db Stmt : Type 0} (sqlite : Sqlite Db Stmt) (db db' : Db) (stmt stmt' : Stmt)
    (id : ℕ) (text : List ℕ) (n : ℕ) : Type 0 where
  pub prepared : sqlite.prepare db sql_select_test ≡ some stmt
  pub stepped : sqlite.step db (sqlite.bind_int stmt 1 id).1 ≡ (row, db', stmt')
  pub four : sqlite.column_count stmt' ≡ 4
  pub named : sqlite.column_text stmt' 0 ≡ some text
  pub fits : find_nul (take max_name_len text) ≡ some n

-- The job as the database leaves it.
abbrev pub loaded :
    {Db Stmt : Type 0} → Sqlite Db Stmt → Stmt → LoadPlayerData → List ℕ → ℕ → LoadPlayerData
loaded sqlite stmt' job text n = record job {
  base = record (job.base) { success = true };
  pos_x = sqlite.column_double stmt' 1;
  pos_y = sqlite.column_double stmt' 2;
  pos_z = sqlite.column_double stmt' 3;
  player_name = write_bytes job.player_name 0 (take (suc n) text);
}

module _ (casts : Casts) (job : LoadPlayerData) (n : ℕ) where
  -- A client that receives the answer has the player's id.
  answer_received :
      (b : CircularBuffer) (c : TcpClient) (debug : Bool) (fuel : ℕ)
      → job.player_id < 2 ^ 32
      → job.player_id ≢ minus_one
      → ((x : ℕ) → casts.to_float x < 2 ^ 32)
      → IsValid b
      → contents b ≡ answer_to casts job n
      → (c' : TcpClient) × (process_packet debug (suc (suc fuel)) (with_recv_buffer b c)
          ≡ some (returns (c', [])))
        × (c'.login_id ≡ job.player_id)
  unfolding process login_received
  answer_received b c debug fuel id_in id floats v e =
      let r = login (record login_result {
        player_id = job.player_id;
        pos_x = casts.to_float job.pos_x;
        pos_y = casts.to_float job.pos_y;
        name = write_bytes login_result.name 0 (take (suc n) job.player_name);
      }) in
      let good : IsResult r = (
        (
          record { size_in = omega arith; type_in = omega arith },
          id_in,
          floats job.pos_x,
          floats job.pos_y,
          length-write_bytes login_result.name 0 (take (suc n) job.player_name),
        ),
        (refl, refl),
        id,
      ) in
      let (d, w, empty, same, run) =
        process_packet_processes debug (r ∷ []) [] b (good, tt) (inl (omega arith)) v
          (e ∙ sym (append-nil (answer_to casts job n))) in
      (
        with_recv_buffer d (record c { login_id = job.player_id }),
        run (suc (suc fuel)) c (omega arith),
        refl,
      )

length-answer_to :
    (casts : Casts) (job : LoadPlayerData) (n : ℕ)
    → length (answer_to casts job n) ≡ login_result.header.size
unfolding login_result_bytes
length-answer_to casts job n =
    omega (arith, length-write_bytes login_result.name 0 (take (suc n) job.player_name))

-- What the loop over the results does with a player loaded for a connected session.
dispatched :
    (casts : Casts) (job : LoadPlayerData) (n a : ℕ) (m : ClientManager) (t : ClientSession)
    → job.base.success ≡ true
    → job.base.sock_key ≡ some t.socket.handle
    → find m.client_list t.socket.handle ≡ some a
    → lookup m.sessions a ≡ some t
    → t.connected ≡ true
    → IsValid t.send_buffer
    → length t.player_name ≡ max_name_len
    → find_nul (take max_name_len job.player_name) ≡ some n
    → length (answer_to casts job n) ≤ (CircularBuffer.get_free_space_size t.send_buffer).0
    → Returns (dispatch_result casts m (load_player job)) λ (m', effects).
      (t' : ClientSession) × (lookup m'.sessions a ≡ some t')
      × (t'.logon ≡ true)
      × (t'.player_id ≡ job.player_id)
      × (contents t'.send_buffer ≡ contents t.send_buffer ++ answer_to casts job n)
dispatched casts job n a m t ok key found live on v l nul room =
    let fits : leb (length (answer_to casts job n))
          (CircularBuffer.get_free_space_size t.send_buffer).0
        ≡ true =
      ground (arith, room) in
    let ((t', effects), e, done) =
      Returns_value (database_job_done casts t (load_player job)) _
        (database_job_done_lem casts t job n key on v l nul) in
    let run : dispatch_result casts m (load_player job)
        ≡ returns (
          record m { sessions = store m.sessions a (some t') },
          map (λ effect. (a, effect)) effects,
        ) =
      ground (arith, ok, key, found, live, on, e) in
    rw run (
      t',
      lookup-store_same m.sessions a t (some t') live,
      done.0,
      done.1,
      done.6
          ∙ ap
              (λ ok.
                if ok
                then contents t.send_buffer ++ answer_to casts job n
                else contents t.send_buffer)
              fits,
    )

-- A login under an id that fits and is not -1, whose player has a row in the database with a name
-- that fits, and whose session is in the client list, still connected, with a valid send buffer
-- that has room, when the result comes, where `float`s have 32 bits: `Handler_PKT_CS_LOGIN` pushes
-- one job, the job takes the row, the result logs the session on and puts one answer behind what is
-- to be sent, and the game client that receives it alone in a valid buffer, given two rounds, has
-- the player's id.
pub login_travels :
    {Db Stmt : Type 0} (sqlite : Sqlite Db Stmt) (db db' : Db) (stmt stmt' : Stmt) (text : List ℕ)
    (n a : ℕ) (casts : Casts) (p : LoginRequest) (s t : ClientSession) (m : ClientManager)
    → IsRow sqlite db db' stmt stmt' p.player_id text n
    → p.player_id < 2 ^ 32
    → p.player_id ≢ minus_one
    → ((x : ℕ) → casts.to_float x < 2 ^ 32)
    → t.socket.handle ≡ s.socket.handle
    → find m.client_list s.socket.handle ≡ some a
    → lookup m.sessions a ≡ some t
    → t.connected ≡ true
    → IsValid t.send_buffer
    → length t.player_name ≡ max_name_len
    → login_result.header.size ≤ (CircularBuffer.get_free_space_size t.send_buffer).0
    → let asked = load_player_data s.socket.handle p.player_id in
      (job : LoadPlayerData) × (answer : List ℕ) × (handle_login s p
        ≡ returns (s, pushes_request (load_player asked) ∷ []))
      × (execute_job sqlite db (load_player asked)
          ≡ returns (load_player job, sqlite.finalize db' stmt'))
      × Returns (dispatch_result casts m (load_player job)) (λ (m', effects).
        (t' : ClientSession) × (lookup m'.sessions a ≡ some t')
        × (t'.logon ≡ true)
        × (t'.player_id ≡ p.player_id)
        × (contents t'.send_buffer ≡ contents t.send_buffer ++ answer))
      × ((b : CircularBuffer) (c : TcpClient) (debug : Bool) (fuel : ℕ)
          → IsValid b
          → contents b ≡ answer
          → (c' : TcpClient) × (process_packet debug (suc (suc fuel)) (with_recv_buffer b c)
              ≡ some (returns (c', [])))
            × (c'.login_id ≡ p.player_id))
unfolding handle_login
login_travels sqlite db db' stmt stmt' text n a casts p s t m r id_in id floats key found live on v
      l room =
    let asked = load_player_data s.socket.handle p.player_id in
    let job = loaded sqlite stmt' asked text n in
    let named : find_nul (take max_name_len job.player_name) ≡ some n =
      ap find_nul (
        take_all max_name_len job.player_name
          (omega (arith, length-write_bytes asked.player_name 0 (take (suc n) text))))
      ∙ find_nul-write_bytes asked.player_name text n r.fits in
    (
      job,
      answer_to casts job n,
      refl,
      execute_job_loads sqlite db db' asked stmt stmt' text n r.prepared r.stepped r.four r.named
          r.fits,
      dispatched casts job n a m t refl (ap some (sym key)) (ap (find m.client_list) key ∙ found)
          live on v l named (omega (arith, length-answer_to casts job n)),
      λ b c debug fuel u e. answer_received casts job n b c debug fuel id_in id floats u e,
    )
