-- ===== src/ClientSession/Sending.antt =====
-- The send buffer of a session: what is accepted, and what is handed to the socket.
use easy_game_server.Prelude.{
  ℕ, ◌<◌, ◌≡◌, sym, ap, ◌∙◌, List, [], ◌∷◌, ◌++◌, length, drop, arith, ◌>>=◌, true, false, not, leb,
  if◌then◌else◌, Returns, Returns->>=, Returns_mono, subst,
}
use easy_game_server.CircularBuffer
use easy_game_server.CircularBuffer.Invariant.{IsValid, contents}
use easy_game_server.CircularBuffer.Writing.{write_refines}
use easy_game_server.CircularBuffer.Removing.{remove_refines}
use easy_game_server.CircularBuffer.Sending.{get_buffer_start_lem}
use easy_game_server.ClientSession.{
  ClientSession, starts_send, answer, asked, disconnect, send_request, send_flush,
  on_write_complete,
}

-- On a connected session `SendRequest` succeeds exactly when the send buffer has room. Then the
-- packet is behind what is to be sent; otherwise that is unchanged, and the session is disconnected
-- unless Winsock refuses the option that is set before the socket is closed. On any other session it
-- fails and changes nothing. The send buffer stays valid.
pub send_request_lem :
    (s : ClientSession) (packet : List ℕ)
    → IsValid s.send_buffer
    → let (ok, t) = send_request s packet in
      let room = leb (length packet) (CircularBuffer.get_free_space_size s.send_buffer).0 in
      IsValid t.send_buffer
      × (contents t.send_buffer
          ≡ (if ok then contents s.send_buffer ++ packet else contents s.send_buffer))
      × (s.connected ≡ true → ok ≡ room)
      × (s.connected ≡ true → t.connected ≡ (if room then true else not (answer s)))
      × (s.connected ≡ false → (ok ≡ false) × (t ≡ s))
unfolding send_request disconnect
send_request_lem s packet v = ground (arith, v, write_refines packet v)

-- A completed send removes what was sent.
on_write_complete_lem :
    (s : ClientSession) (len : ℕ)
    → IsValid s.send_buffer
    → Returns
        (on_write_complete s len)
        λ t. IsValid t.send_buffer × (contents t.send_buffer ≡ drop len (contents s.send_buffer))
unfolding on_write_complete
on_write_complete_lem s len v =
    Returns->>= (CircularBuffer.remove s.send_buffer len) _ _ _ (remove_refines len v)
      λ c d. (d.0, d.1)

send_flush_keeps : (s : ClientSession) → (send_flush s).1.send_buffer ≡ s.send_buffer
unfolding send_flush
send_flush_keeps s = ground arith

-- Two flushes with no completion between them, as the client thread's loop makes when it is woken
-- before the first send is done: the same bytes are handed to the socket twice. When both sends are
-- done, twice their number is removed, and so bytes behind them that were never handed over.
pub flush_twice :
    (s : ClientSession)
    → s.connected ≡ true
    → IsValid s.send_buffer
    → 0 < length (contents s.send_buffer)
    → answer s ≡ true
    → answer (asked s) ≡ true
    → let n = CircularBuffer.get_contiguous_bytes s.send_buffer in
      let effect = starts_send (CircularBuffer.get_buffer_start s.send_buffer) n in
      let t = (send_flush s).1 in
      let u = (send_flush t).1 in
      (0 < n)
      × ((send_flush s).2 ≡ effect ∷ [])
      × ((send_flush t).2 ≡ effect ∷ [])
      × Returns
          (on_write_complete u n >>= λ v. on_write_complete v n)
          λ v. contents v.send_buffer ≡ drop n (drop n (contents s.send_buffer))
unfolding send_flush
flush_twice s on v some_bytes first second =
    let start = get_buffer_start_lem v some_bytes in
    let n = CircularBuffer.get_contiguous_bytes s.send_buffer in
    let u = (send_flush (send_flush s).1).1 in
    let same = send_flush_keeps (send_flush s).1 ∙ send_flush_keeps s in
    (
      start.1,
      ground (arith, start, on, first),
      ground (arith, start, on, first, second),
      Returns->>= (on_write_complete u n) _ _ _
          (on_write_complete_lem u n (subst IsValid (sym same) v))
          λ w d.
            Returns_mono (on_write_complete w n) _ _ (on_write_complete_lem w n d.0)
              λ x e. e.1 ∙ ap (drop n) (d.1 ∙ ap (λ b. drop n (contents b)) same),
    )
