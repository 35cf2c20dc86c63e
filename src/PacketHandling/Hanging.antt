-- ===== src/PacketHandling/Hanging.antt =====
-- Packets on which the loop of `OnRead` makes no progress.
use easy_game_server.Prelude.{
  ℕ, zero, suc, ◌≤◌, ◌<◌, ◌≡◌, refl, sym, subst, ◌⊎◌, inl, inr, ◌≢◌, none, [], length, take, arith,
  returns,
}
use easy_game_server.PacketType.{
  header_of_bytes, pkt_none, pkt_max, pkt_cs_login, pkt_cs_chat, pkt_cs_move, login_request,
  chat_broadcast_request, move_request,
}
use easy_game_server.PacketType.Words.{size_of_short}
use easy_game_server.CircularBuffer
use easy_game_server.CircularBuffer.{CircularBuffer}
use easy_game_server.CircularBuffer.Invariant.{IsValid, contents, get_stored_size-eq-length}
use easy_game_server.CircularBuffer.Reading.{peek_refines, read_few}
use easy_game_server.ClientSession.{ClientSession, disconnect}
use easy_game_server.PacketHandling.{
  handler_table, default_handler, handler_pkt_cs_login, handler_pkt_cs_chat, handler_pkt_cs_move,
  read_round, read_loop, continues, on_read,
}

-- A type in the range that the loop lets pass, for which no handler is registered; or a registered
-- one, in a buffer that holds less than the struct that its handler reads.
abbrev IsUnread : ℕ → ℕ → Type 0
IsUnread type stored =
    ((pkt_none < type)
      × (type < pkt_max)
      × (type ≢ pkt_cs_login)
      × (type ≢ pkt_cs_chat)
      × (type ≢ pkt_cs_move))
    ⊎ ((type ≡ pkt_cs_login) × (stored < login_request.header.size))
    ⊎ ((type ≡ pkt_cs_chat) × (stored < chat_broadcast_request.header.size))
    ⊎ ((type ≡ pkt_cs_move) × (stored < move_request.header.size))

-- The oldest bytes are such a packet, whole by the size that its header declares.
pub record IsHanging (b : CircularBuffer) : Type 0 where
  pub valid : IsValid b
  pub has_header : 4 ≤ length (contents b)
  pub whole : size_of_short (header_of_bytes (take 4 (contents b))).size ≤ length (contents b)
  pub unread : IsUnread (header_of_bytes (take 4 (contents b))).type (length (contents b))

disconnect_keeps : (s : ClientSession) → (disconnect s).recv_buffer ≡ s.recv_buffer
unfolding disconnect
disconnect_keeps s = ground arith

handler_idle :
    (s : ClientSession) (type : ℕ)
    → IsValid s.recv_buffer
    → IsUnread type (length (contents s.recv_buffer))
    → (t : ClientSession) × (handler_table type s ≡ returns (t, []))
      × (t.recv_buffer ≡ s.recv_buffer)
unfolding handler_table default_handler handler_pkt_cs_login handler_pkt_cs_chat handler_pkt_cs_move
handler_idle s type v (inl u) = (disconnect s, ground (arith, u), disconnect_keeps s)
handler_idle s type v (inr (inl u)) = (s, ground (arith, u, read_few 8 v), refl)
handler_idle s type v (inr (inr (inl u))) = (s, ground (arith, u, read_few 264 v), refl)
handler_idle s type v (inr (inr (inr u))) = (s, ground (arith, u, read_few 16 v), refl)

round_idle :
    (s : ClientSession)
    → IsHanging s.recv_buffer
    → (t : ClientSession) × (read_round s ≡ returns (continues t []))
      × (t.recv_buffer ≡ s.recv_buffer)
unfolding read_round
round_idle s h =
    let type = (header_of_bytes (take 4 (contents s.recv_buffer))).type in
    let (t, e, f) = handler_idle s type h.valid h.unread in
    (t, ground (arith, h, e, peek_refines 4 h.valid, get_stored_size-eq-length h.valid), f)

-- However many rounds it is given, the loop does not return.
loop_hangs : (fuel : ℕ) (s : ClientSession) → IsHanging s.recv_buffer → read_loop fuel s ≡ none
unfolding read_loop
loop_hangs zero s h = refl
loop_hangs (suc fuel) s h =
    let (t, e, f) = round_idle s h in
    rw (e, read_loop, loop_hangs fuel t (subst IsHanging (sym f) h))

-- A receive after which the buffer begins with a packet of an unregistered type, or with one that
-- declares fewer bytes than its struct has and is all that the buffer holds, never ends: `OnRead`
-- has not returned after any number of rounds.
pub on_read_hangs :
    (fuel len : ℕ) (s : ClientSession)
    → IsHanging (CircularBuffer.commit s.recv_buffer len)
    → on_read fuel s len ≡ none
unfolding on_read
on_read_hangs fuel len s h =
    loop_hangs fuel (record s { recv_buffer = CircularBuffer.commit s.recv_buffer len }) h
