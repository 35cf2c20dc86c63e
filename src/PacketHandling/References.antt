-- ===== src/PacketHandling/References.antt =====
-- The references to a session, against the input, output and tasks that wait for it.
pub mod Reading
pub mod History
mod Tests
use easy_game_server.Prelude.{
  ℕ, zero, suc, ◌+◌, ◌-◌, ◌%◌, ◌^◌, ◌≤◌, ◌<◌, ◌≡◌, refl, ◌∙◌, ap, sym, ◌==◌, ◌||◌, if◌then◌else◌,
  Bool, true, false, not, ltb, Bool-cases, inl, inr, Option, none, some, List, [], ◌∷◌, ◌++◌,
  length, arith, Outcome, returns, crashes, ◌>>=◌, write_bytes, Outcome-cases, strcpy_s, assert,
}
use easy_game_server.CircularBuffer
use easy_game_server.CircularBuffer.{CircularBuffer}
use easy_game_server.PacketType.{
  login_result, login_result_bytes, PacketHeader, header_of_bytes, pkt_none, pkt_max,
  ChatBroadcastRequest, MoveRequest, LoginRequest, pkt_cs_login, pkt_cs_chat, pkt_cs_move,
  login_request, chat_broadcast_request, move_request, login_request_of_bytes,
  chat_broadcast_request_of_bytes, move_request_of_bytes,
}
use easy_game_server.PacketType.Words.{size_of_short, ltb_short}
use easy_game_server.DatabaseJobContext.{
  DatabaseJob, base, load_player, create_player, delete_player, update_player,
}
use easy_game_server.ClientSession.{
  ClientSession, Effect, starts_recv, starts_send, pushes_request, calls_after, broadcasts, Casts,
  dec_ref_count, disconnect, post_recv, on_connect, send_request, send_flush, on_write_complete,
  broadcast, on_tick, on_db_update, login_done, done, database_job_done, has_key,
}
use easy_game_server.PacketHandling.{
  Round, stops, continues, on_packet, go_on, on_header, on_peek, prepend, handler_table,
  handler_pkt_cs_login, handler_pkt_cs_chat, handler_pkt_cs_move, default_handler, handle_login,
  handle_chat, handle_move, read_round, read_loop, on_read, recv_completion, receive_again,
  send_completion,
}

-- How many of the effects hold a reference until they are done.
abbrev pub holds : List Effect → ℕ
holds [] = 0
holds (starts_recv p n ∷ effects) = suc (holds effects)
holds (starts_send p n ∷ effects) = suc (holds effects)
holds (calls_after after task ∷ effects) = suc (holds effects)
holds (pushes_request job ∷ effects) = holds effects
holds (broadcasts packet ∷ effects) = holds effects

pub holds-append : (xs ys : List Effect) → holds (xs ++ ys) ≡ holds xs + holds ys
holds-append [] ys = omega arith
holds-append (starts_recv p n ∷ xs) ys = omega (arith, holds-append xs ys)
holds-append (starts_send p n ∷ xs) ys = omega (arith, holds-append xs ys)
holds-append (calls_after after task ∷ xs) ys = omega (arith, holds-append xs ys)
holds-append (pushes_request job ∷ xs) ys = holds-append xs ys
holds-append (broadcasts packet ∷ xs) ys = holds-append xs ys

-- The count has gone up by the references held, in 32 bits.
abbrev pub Counted : ClientSession → ClientSession × List Effect → Type 0
Counted s (t, effects) = t.ref_count % 2 ^ 32 ≡ (s.ref_count + holds effects) % 2 ^ 32

abbrev pub Counts : ClientSession → Outcome (ClientSession × List Effect) → Type 0
Counts s crashes = Unit
Counts s (returns r) = Counted s r

pub disconnect-ref_count : (s : ClientSession) → (disconnect s).ref_count ≡ s.ref_count
unfolding disconnect
disconnect-ref_count s = ground arith

pub send_request-ref_count :
    (s : ClientSession) (packet : List ℕ) → (send_request s packet).1.ref_count ≡ s.ref_count
unfolding send_request disconnect
send_request-ref_count s packet = ground arith

pub post_recv-Counted :
    (s : ClientSession) → let (ok, t, effects) = post_recv s in Counted s (t, effects)
unfolding post_recv
post_recv-Counted s = ground arith

pub send_flush-Counted :
    (s : ClientSession) → let (ok, t, effects) = send_flush s in Counted s (t, effects)
unfolding send_flush
send_flush-Counted s = ground arith

pub on_tick-Counted : (s : ClientSession) → Counted s (on_tick s)
unfolding on_tick
on_tick-Counted s = ground arith

module _ (casts : Casts) where
  pub on_db_update-Counts : (s : ClientSession) → Counts s (on_db_update casts s)
  unfolding on_db_update
  on_db_update-Counts s = ground arith

  -- The timed tasks of a session that has logged on.
  starting-Counts :
      (s t : ClientSession)
      → t.ref_count ≡ s.ref_count
      → Counts s (
          on_db_update casts (on_tick t).0 >>= λ (u, updating).
          returns (u, (on_tick t).1 ++ updating))
  unfolding on_db_update on_tick
  starting-Counts s t e = ground (arith, e)

  login_done-Counts :
      (s : ClientSession) (pid x y : ℕ) (name : List ℕ) → Counts s (login_done casts s pid x y name)
  unfolding login_done
  login_done-Counts s pid x y name = elim (Outcome-cases (strcpy_s s.player_name name)) [
    | inl e ↦ rw e tt
    | inr (kept, e) ↦ elim (Outcome-cases (strcpy_s login_result.name name)) [
      | inl e' ↦ rw (e, e') tt
      | inr (named, e') ↦
          let s₁ = record s { player_id = pid; pos_x = x; pos_y = y; player_name = kept } in
          let packet =
            login_result_bytes
              (record login_result { player_id = pid; pos_x = x; pos_y = y; name = named }) in
          let s₂ = (send_request s₁ packet).1 in
          rw (e, e')
            (starting-Counts s (record s₂ { logon = true }) (send_request-ref_count s₁ packet))
    ]
  ]

  done-Counts : (s : ClientSession) (job : DatabaseJob) → Counts s (done casts s job)
  unfolding done
  done-Counts s (load_player job) =
      login_done-Counts s job.player_id (casts.to_float job.pos_x) (casts.to_float job.pos_y)
        job.player_name
  done-Counts s (update_player job) = ground arith
  done-Counts s (create_player job) = tt
  done-Counts s (delete_player job) = tt

  pub database_job_done-Counts :
      (s : ClientSession) (job : DatabaseJob) → Counts s (database_job_done casts s job)
  unfolding database_job_done
  database_job_done-Counts s job =
      elim (Outcome-cases (assert (has_key casts s.socket.handle (base job).sock_key))) [
        | inl e ↦ rw e tt
        | inr (held, e) ↦ rw e (done-Counts s job)
      ]
