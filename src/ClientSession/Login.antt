-- ===== src/ClientSession/Login.antt =====
-- What a loaded player brings about in its session.
use easy_game_server.Prelude.{
  ℕ, suc, ◌≡◌, refl, List, [], ◌∷◌, ◌++◌, length, take, arith, Returns, replicate, true, some,
  if◌then◌else◌, not, leb, find_nul, strcpy_s-some, write_bytes,
}
use easy_game_server.PacketType.{login_result, login_result_bytes, max_name_len}
use easy_game_server.DatabaseJobContext.{
  LoadPlayerData, load_player, update_player, update_player_data, UpdatePlayerData,
}
use easy_game_server.CircularBuffer
use easy_game_server.CircularBuffer.Invariant.{IsValid, contents}
use easy_game_server.CircularBuffer.Writing.{write_refines}
use easy_game_server.ClientSession.{
  ClientSession, calls_after, pushes_request, on_tick_task, on_db_update_task, Casts, answer,
  updated_test, player_heart_beat, player_db_update_interval, send_request, disconnect, on_tick,
  on_db_update, login_done, done, database_job_done,
}

module _ (casts : Casts) where
  open casts use {to_float, to_double}

  -- The packet that tells the client.
  abbrev pub answer_to : LoadPlayerData → ℕ → List ℕ
  answer_to job n = login_result_bytes (record login_result {
    player_id = job.player_id;
    pos_x = to_float job.pos_x;
    pos_y = to_float job.pos_y;
    name = write_bytes login_result.name 0 (take (suc n) job.player_name);
  })

  -- The first update of the player in the database.
  abbrev pub first_update : ℕ → LoadPlayerData → UpdatePlayerData
  first_update socket job = record (update_player_data socket job.player_id) {
    pos_x = to_double (to_float job.pos_x);
    pos_y = to_double (to_float job.pos_y);
    comment = write_bytes (replicate 40 0) 0 updated_test;
  }

  -- A player loaded for a connected session, its name ended by a 0: the session takes its id, position
  -- and name and is logged on. If the send buffer has room, the answer is put behind what is to be
  -- sent, the first update goes to the database, and both timed tasks are put off. Otherwise nothing
  -- is sent, and the session is disconnected, and starts nothing, unless Winsock refuses an option.
  pub database_job_done_lem :
      (s : ClientSession) (job : LoadPlayerData) (n : ℕ)
      → job.base.sock_key ≡ some s.socket.handle
      → s.connected ≡ true
      → IsValid s.send_buffer
      → length s.player_name ≡ max_name_len
      → find_nul (take max_name_len job.player_name) ≡ some n
      → let room =
          leb (length (answer_to job n)) (CircularBuffer.get_free_space_size s.send_buffer).0 in
        Returns (database_job_done casts s (load_player job)) λ (t, effects).
          (t.logon ≡ true)
          × (t.player_id ≡ job.player_id)
          × (t.pos_x ≡ to_float job.pos_x)
          × (t.pos_y ≡ to_float job.pos_y)
          × (t.player_name ≡ write_bytes s.player_name 0 (take (suc n) job.player_name))
          × (t.connected ≡ (if room then true else not (answer s)))
          × (contents t.send_buffer ≡ (
              if room then contents s.send_buffer ++ answer_to job n else contents s.send_buffer))
          × (effects ≡ (
              if t.connected
              then calls_after player_heart_beat on_tick_task
                ∷ pushes_request (update_player (first_update s.socket.handle job))
                ∷ calls_after player_db_update_interval on_db_update_task
                ∷ []
              else []))
  unfolding database_job_done done login_done on_tick on_db_update send_request disconnect
  database_job_done_lem s job n key on v l nul =
      let name_kept = strcpy_s-some s.player_name job.player_name n (rw (l, nul)) in
      let name_sent = strcpy_s-some (replicate 30 0) job.player_name n nul in
      let comment = strcpy_s-some (replicate 40 0) updated_test 12 refl in
      ground (arith, key, on, v, name_kept, name_sent, comment, write_refines (answer_to job n) v)
