-- ===== src/ClientSession/Tests.antt =====
-- A session whose send buffer's bytes wrap.
use easy_game_server.Prelude.{
  ◌<◌, ◌≡◌, refl, arith, true, some, [], ◌∷◌, replicate, Returns, if◌then◌else◌, ◌>>=◌,
}
use easy_game_server.PacketType.{login_result_bytes}
use easy_game_server.DatabaseJobContext.{
  LoadPlayerData, load_player_data, load_player, update_player,
}
use easy_game_server.ClientSession.{
  Casts, database_job_done, calls_after, pushes_request, on_tick_task, on_db_update_task,
  player_heart_beat, player_db_update_interval,
}
use easy_game_server.ClientSession.Login.{answer_to, first_update, database_job_done_lem}
use easy_game_server.CircularBuffer
use easy_game_server.CircularBuffer.{CircularBuffer}
use easy_game_server.CircularBuffer.Invariant.{IsValid, contents}
use easy_game_server.ClientSession.{
  ClientSession, Socket, init, send_flush, on_write_complete, starts_send,
}
use easy_game_server.ClientSession.Sending.{flush_twice}

-- It holds 5, 6, 7, 8, 1, 2, of which the first four go to the socket at once.
abbrev sending : CircularBuffer
sending = record {
  buffer = 1 ∷ 2 ∷ 3 ∷ 4 ∷ 5 ∷ 6 ∷ 7 ∷ 8 ∷ [];
  buffer_end = 8;
  a_region_pointer = 4;
  a_region_size = 4;
  b_region_pointer = some 0;
  b_region_size = 2;
}

abbrev kind : Socket
kind = record { handle = 3; answers = λ _. true; calls = 0 }

abbrev session : ClientSession
session = record (init kind (replicate 8 0) (replicate 8 0)) {
  connected = true;
  send_buffer = sending;
}

sending-IsValid : IsValid sending
sending-IsValid = omega arith

get_free_space_size-sending : (CircularBuffer.get_free_space_size sending).0 ≡ 2
unfolding CircularBuffer.get_free_space_size
get_free_space_size-sending = refl

flush_twice_example :
    let t = (send_flush session).1 in
    let u = (send_flush t).1 in
    (0 < 4)
    × ((send_flush session).2 ≡ starts_send (some 4) 4 ∷ [])
    × ((send_flush t).2 ≡ starts_send (some 4) 4 ∷ [])
    × Returns
        (on_write_complete u 4 >>= λ v. on_write_complete v 4)
        λ v. contents v.send_buffer ≡ []
unfolding init CircularBuffer.init CircularBuffer.get_contiguous_bytes
    CircularBuffer.get_buffer_start
flush_twice_example = flush_twice session refl sending-IsValid (omega arith) refl refl

-- The bit patterns are kept.
abbrev casts : Casts
casts = record { to_float = λ x. x; to_double = λ x. x }

abbrev roomy : ClientSession
roomy = record (init kind (replicate 64 0) (replicate 8 0)) { connected = true }

abbrev loaded : LoadPlayerData
loaded = record (load_player_data 3 7) { player_name = 65 ∷ 66 ∷ 0 ∷ replicate 27 0 }

roomy-IsValid : IsValid roomy.send_buffer
unfolding init CircularBuffer.init
roomy-IsValid = omega arith

database_job_done_lem_example :
    Returns (database_job_done casts roomy (load_player loaded)) λ (t, effects).
      (t.logon ≡ true)
      × (t.player_id ≡ 7)
      × (t.pos_x ≡ 0)
      × (t.pos_y ≡ 0)
      × (t.player_name ≡ loaded.player_name)
      × (t.connected ≡ true)
      × (contents t.send_buffer ≡ answer_to casts loaded 2)
      × (effects ≡ (
          if t.connected
          then calls_after player_heart_beat on_tick_task
            ∷ pushes_request (update_player (first_update casts 3 loaded))
            ∷ calls_after player_db_update_interval on_db_update_task
            ∷ []
          else []))
unfolding init CircularBuffer.init CircularBuffer.get_free_space_size login_result_bytes
database_job_done_lem_example =
    database_job_done_lem casts roomy loaded 2 refl refl roomy-IsValid refl refl
