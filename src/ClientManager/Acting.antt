-- ===== src/ClientManager/Acting.antt =====
-- What a session does of its own, through its completion routines and tasks, keeps it sound.
use easy_game_server.Prelude.{
  ℕ, ◌≤◌, refl, ◌∙◌, ◌==◌, ◌||◌, Bool, not, Bool-cases, inl, inr, Option, none, some, List, [],
  take, length, arith, Outcome, returns, crashes, ◌>>=◌, write_bytes, Returns_value, sym, true,
  length-write_bytes, length-take,
}
use easy_game_server.CircularBuffer
use easy_game_server.CircularBuffer.{CircularBuffer}
use easy_game_server.CircularBuffer.Invariant
use easy_game_server.CircularBuffer.Removing.{remove_refines}
use easy_game_server.CircularBuffer.Writing.{get_free_space_size_lem, receive_refines}
use easy_game_server.ClientSession.{
  ClientSession, Effect, Casts, dec_ref_count, disconnect, post_recv, on_connect, send_request,
  on_tick, on_db_update, on_write_complete,
}
use easy_game_server.PacketHandling.{
  read_loop, on_read, recv_completion, receive_again, send_completion,
}
use easy_game_server.ClientManager.Invariant.{IsSession}
use easy_game_server.ClientManager.Creating.{disconnect-IsSession, send_request-IsSession}
use easy_game_server.ClientManager.Delivering.{on_tick-IsSession, on_db_update-IsSession}
use easy_game_server.ClientManager.Handling.{
  MayContinue, ContinuesIfDone, Continues-trans, post_recv-Continues, read_loop-Continues,
}

receive_again-Continues :
    (s : ClientSession) (o : Outcome (ClientSession × List Effect))
    → MayContinue s o
    → MayContinue s (o >>= receive_again)
receive_again-Continues s crashes h = tt
receive_again-Continues s (returns (t, effects)) h =
    let posted = post_recv-Continues t h.1 in
    elim (Bool-cases (post_recv t).0) [
      | inl ok ↦ rw ok (Continues-trans s t (post_recv t).1 h posted)
      | inr failed ↦ rw failed (
          Continues-trans s t (disconnect (post_recv t).1) h (
            Continues-trans t (post_recv t).1 (disconnect (post_recv t).1) posted
              (disconnect-IsSession (post_recv t).1 posted.1)))
    ]

-- A receive brings no more bytes than there was room for when it was started.
recv_completion-Continues :
    (fuel : ℕ) (s : ClientSession) (failed : Bool) (transferred : List ℕ)
    → IsSession s
    → length transferred ≤ (CircularBuffer.get_free_space_size s.recv_buffer).0
    → let posted = (CircularBuffer.get_free_space_size s.recv_buffer).1 in
      ContinuesIfDone s (
        recv_completion fuel
          (record s { recv_buffer = posted })
          failed
          (CircularBuffer.get_buffer posted)
          transferred)
unfolding recv_completion on_read
recv_completion-Continues fuel s failed transferred w fits =
    let posted = (CircularBuffer.get_free_space_size s.recv_buffer).1 in
    let filled = record posted {
      buffer = write_bytes posted.buffer (CircularBuffer.get_buffer posted) transferred;
    } in
    let place = CircularBuffer.get_buffer posted in
    let v = (get_free_space_size_lem w.receives).0 in
    let valid : Invariant.IsValid filled = record {
      whole = v.whole ∙ sym (length-write_bytes posted.buffer place transferred);
      small = v.small;
      a_in = v.a_in;
      a_empty = v.a_empty;
      b_in = v.b_in;
    } in
    let s' : ClientSession = dec_ref_count (record s { recv_buffer = filled }) in
    let good : IsSession s' = record { named = w.named; sends = w.sends; receives = valid } in
    let read = record s' { recv_buffer = CircularBuffer.commit filled (length transferred) } in
    let arrived : IsSession read = record {
      named = w.named;
      sends = w.sends;
      receives = (receive_refines transferred w.receives fits).0;
    } in
    elim (Bool-cases (not s.connected)) [
      | inl off ↦ rw off (refl, good)
      | inr on ↦ elim (Bool-cases (failed || length transferred == 0)) [
        | inl lost ↦ rw (on, lost) (disconnect-IsSession s' good)
        | inr came ↦
            rw (on, came) (go (read_loop fuel read) (read_loop-Continues fuel read arrived))
      ]
    ]
  where
    go :
        (o : Option (Outcome (ClientSession × List Effect)))
        → ContinuesIfDone s o
        → ContinuesIfDone s
            (elim o [ none ↦ none | some outcome ↦ some (outcome >>= receive_again) ])
    go none h = tt
    go (some outcome) h = receive_again-Continues s outcome h

send_completion-Continues :
    (s : ClientSession) (failed : Bool) (n : ℕ)
    → IsSession s
    → MayContinue s (send_completion s failed n >>= λ t. returns (t, []))
unfolding send_completion on_write_complete
send_completion-Continues s failed n w =
    let s' = dec_ref_count s in
    let good : IsSession s' = record { named = w.named; sends = w.sends; receives = w.receives } in
    elim (Bool-cases (not s.connected)) [
      | inl off ↦ rw off (refl, good)
      | inr on ↦ elim (Bool-cases (failed || n == 0)) [
        | inl lost ↦ rw (on, lost) (disconnect-IsSession s' good)
        | inr done ↦
            let (buffer, f, v) =
              Returns_value (CircularBuffer.remove s.send_buffer n) _ (remove_refines n w.sends) in
            rw (on, done, f) (refl, record { named = w.named; sends = v.0; receives = w.receives })
      ]
    ]

-- What a session does of its own. `receives` is the completion of a receive that was started as the
-- receive buffer is now, with what came of those bytes; `ticks` and `updates` are tasks that the
-- scheduler runs, after which it releases the session.
pub data Act : Type 0 where
  connects : Act
  receives : ℕ → Bool → List ℕ → Act
  has_sent : Bool → ℕ → Act
  requests : List ℕ → Act
  ticks : Act
  updates : Act
  disconnects : Act

abbrev after_task : Outcome (ClientSession × List Effect) → Outcome (ClientSession × List Effect)
after_task outcome = outcome >>= λ (s, effects). returns (dec_ref_count s, effects)

unfoldable pub act : Casts → ClientSession → Act → Option (Outcome (ClientSession × List Effect))
act casts s connects = some (returns ((on_connect s).1, (on_connect s).2))
act casts s (receives fuel failed bytes) =
    let (room, posted) = CircularBuffer.get_free_space_size s.recv_buffer in
    recv_completion fuel (record s { recv_buffer = posted }) failed
      (CircularBuffer.get_buffer posted) (take room bytes)
act casts s (has_sent failed n) = some (send_completion s failed n >>= λ t. returns (t, []))
act casts s (requests packet) = some (returns ((send_request s packet).1, []))
act casts s ticks = some (after_task (returns (on_tick s)))
act casts s updates = some (after_task (on_db_update casts s))
act casts s disconnects = some (returns (disconnect s, []))

after_task-Continues :
    (s : ClientSession) (o : Outcome (ClientSession × List Effect))
    → MayContinue s o
    → MayContinue s (after_task o)
after_task-Continues s crashes h = tt
after_task-Continues s (returns (t, effects)) (key, w) =
    (key, record { named = w.named; sends = w.sends; receives = w.receives })

-- Whatever a sound session does, if it comes to an end, leaves it with its socket, and sound.
pub act-Continues :
    (casts : Casts) (s : ClientSession) (a : Act) → IsSession s → ContinuesIfDone s (act casts s a)
unfolding act on_connect
act-Continues casts s connects w =
    post_recv-Continues (record s { connected = true })
      (record { named = w.named; sends = w.sends; receives = w.receives })
act-Continues casts s (receives fuel failed bytes) w =
    let room = (CircularBuffer.get_free_space_size s.recv_buffer).0 in
    recv_completion-Continues fuel s failed (take room bytes) w
      (omega (arith, length-take room bytes))
act-Continues casts s (has_sent failed n) w = send_completion-Continues s failed n w
act-Continues casts s (requests packet) w = send_request-IsSession s packet w
act-Continues casts s ticks w =
    after_task-Continues s (returns (on_tick s)) (on_tick-IsSession casts s w)
act-Continues casts s updates w =
    let ((t, effects), f, good) =
      Returns_value (on_db_update casts s) _ (on_db_update-IsSession casts s w) in
    rw f (after_task-Continues s (returns (t, effects)) good)
act-Continues casts s disconnects w = disconnect-IsSession s w
