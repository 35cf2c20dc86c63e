-- ===== src/PacketHandling/References/Reading.antt =====
-- The references of a session through its completion routines.
use easy_game_server.Prelude.{
  ℕ, zero, suc, ◌≡◌, ◌==◌, ◌||◌, Bool, not, ltb, Bool-cases, inl, inr, Option, none, some, List,
  length, arith, Outcome, returns, crashes, ◌>>=◌, write_bytes,
}
use easy_game_server.CircularBuffer
use easy_game_server.CircularBuffer.{CircularBuffer}
use easy_game_server.PacketType.{
  PacketHeader, header_of_bytes, pkt_none, pkt_max, ChatBroadcastRequest, MoveRequest, pkt_cs_login,
  pkt_cs_chat, pkt_cs_move, login_request, chat_broadcast_request, move_request,
  login_request_of_bytes, chat_broadcast_request_of_bytes, move_request_of_bytes,
}
use easy_game_server.PacketType.Words.{size_of_short, ltb_short}
use easy_game_server.ClientSession.{
  ClientSession, Effect, dec_ref_count, disconnect, post_recv, send_request, on_write_complete,
  broadcast,
}
use easy_game_server.PacketHandling.{
  Round, stops, continues, on_packet, go_on, on_header, on_peek, prepend, handler_table,
  handler_pkt_cs_login, handler_pkt_cs_chat, handler_pkt_cs_move, default_handler, handle_login,
  handle_chat, handle_move, read_round, read_loop, on_read, recv_completion, receive_again,
  send_completion,
}
use easy_game_server.PacketHandling.References.{
  holds-append, Counted, Counts, disconnect-ref_count, post_recv-Counted,
}

handle_chat-Counts : (s : ClientSession) (p : ChatBroadcastRequest) → Counts s (handle_chat s p)
unfolding handle_chat broadcast send_request disconnect
handle_chat-Counts s p = ground arith

handle_move-Counts : (s : ClientSession) (p : MoveRequest) → Counts s (handle_move s p)
unfolding handle_move broadcast send_request disconnect
handle_move-Counts s p = ground arith

-- A handler reads its packet, which does not touch the count, and handles it.
parsed-Counts :
    {A : Type 0} (s : ClientSession) (of_bytes : List ℕ → A)
    (handle : ClientSession → A → Outcome (ClientSession × List Effect))
    (o : Outcome (Option (List ℕ) × CircularBuffer))
    → ((t : ClientSession) (p : A) → Counts t (handle t p))
    → Counts s (
        (o >>= λ (bytes, buffer). returns (bytes, record s { recv_buffer = buffer }))
        >>= on_packet of_bytes handle)
parsed-Counts s of_bytes handle crashes h = tt
parsed-Counts s of_bytes handle (returns (none, buffer)) h = omega arith
parsed-Counts s of_bytes handle (returns (some bytes, buffer)) h =
    h (record s { recv_buffer = buffer }) (of_bytes bytes)

handler_table-Counts : (type : ℕ) (s : ClientSession) → Counts s (handler_table type s)
unfolding handler_table handler_pkt_cs_login handler_pkt_cs_chat handler_pkt_cs_move default_handler
handler_table-Counts type s = elim (Bool-cases (type == pkt_cs_login)) [
  | inl login ↦ rw login (
      parsed-Counts s login_request_of_bytes handle_login
        (CircularBuffer.read s.recv_buffer login_request.header.size) λ t p. omega arith)
  | inr other ↦ elim (Bool-cases (type == pkt_cs_chat)) [
    | inl chat ↦
        rw (other, chat)
          (parsed-Counts s chat_broadcast_request_of_bytes handle_chat
            (CircularBuffer.read s.recv_buffer chat_broadcast_request.header.size)
            handle_chat-Counts)
    | inr others ↦ elim (Bool-cases (type == pkt_cs_move)) [
      | inl move ↦
          rw (other, others, move)
            (parsed-Counts s move_request_of_bytes handle_move
              (CircularBuffer.read s.recv_buffer move_request.header.size) handle_move-Counts)
      | inr unknown ↦ rw (other, others, unknown) (omega (arith, disconnect-ref_count s))
    ]
  ]
]

abbrev RoundCounts : ClientSession → Outcome Round → Type 0
RoundCounts s crashes = Unit
RoundCounts s (returns (stops t effects)) = Counted s (t, effects)
RoundCounts s (returns (continues t effects)) = Counted s (t, effects)

go_on-RoundCounts :
    (s : ClientSession) (o : Outcome (ClientSession × List Effect))
    → Counts s o
    → RoundCounts s (o >>= go_on)
go_on-RoundCounts s crashes h = tt
go_on-RoundCounts s (returns (t, effects)) h = h

on_header-RoundCounts :
    (s : ClientSession) (header : PacketHeader) → RoundCounts s (on_header s header)
on_header-RoundCounts s header =
    elim (Bool-cases
      (ltb (CircularBuffer.get_stored_size s.recv_buffer) (size_of_short header.size))) [
        | inl part ↦ rw part (omega arith)
        | inr whole ↦
            elim (Bool-cases
              (not (ltb_short header.type pkt_max) || not (ltb_short pkt_none header.type))) [
                | inl bad ↦ rw (whole, bad) (omega (arith, disconnect-ref_count s))
                | inr good ↦
                    rw (whole, good)
                      (go_on-RoundCounts s (handler_table header.type s)
                        (handler_table-Counts header.type s))
              ]
      ]

read_round-RoundCounts : (s : ClientSession) → RoundCounts s (read_round s)
unfolding read_round
read_round-RoundCounts s = go (CircularBuffer.peek s.recv_buffer 4)
  where
    go : (o : Outcome (Option (List ℕ))) → RoundCounts s (o >>= on_peek s)
    go crashes = tt
    go (returns none) = omega arith
    go (returns (some bytes)) = on_header-RoundCounts s (header_of_bytes bytes)

-- The same where there may be no result yet.
abbrev pub MayCount : ClientSession → Option (Outcome (ClientSession × List Effect)) → Type 0
MayCount s none = Unit
MayCount s (some o) = Counts s o

read_loop-MayCount : (fuel : ℕ) (s : ClientSession) → MayCount s (read_loop fuel s)
unfolding read_loop
read_loop-MayCount zero s = tt
read_loop-MayCount (suc fuel) s =
    go (read_round s) (read_round-RoundCounts s) (λ t. read_loop-MayCount fuel t)
  where
    prepended :
        (t : ClientSession) (effects : List Effect) (o : Outcome (ClientSession × List Effect))
        → Counted s (t, effects)
        → Counts t o
        → Counts s (prepend effects o)
    prepended t effects crashes h k = tt
    prepended t effects (returns (u, later)) h k = omega (arith, h, k, holds-append effects later)

    go :
        (o : Outcome Round)
        → RoundCounts s o
        → ((t : ClientSession) → MayCount t (read_loop fuel t))
        → MayCount s (elim o [
          | crashes ↦ some crashes
          | returns (stops s' effects) ↦ some (returns (s', effects))
          | returns (continues s' effects) ↦ elim (read_loop fuel s') [
            | none ↦ none
            | some outcome ↦ some (prepend effects outcome)
          ]
        ])
    go crashes h later = tt
    go (returns (stops t effects)) h later = h
    go (returns (continues t effects)) h later = more (read_loop fuel t) (later t)
      where
        more :
            (o : Option (Outcome (ClientSession × List Effect)))
            → MayCount t o
            → MayCount s (elim o [ none ↦ none | some outcome ↦ some (prepend effects outcome) ])
        more none k = tt
        more (some outcome) k = prepended t effects outcome h k

receive_again-Counts :
    (s : ClientSession) (o : Outcome (ClientSession × List Effect))
    → Counts s o
    → Counts s (o >>= receive_again)
receive_again-Counts s crashes h = tt
receive_again-Counts s (returns (t, effects)) h =
    let posted = post_recv-Counted t in
    let (ok, u, started) = post_recv t in
    elim (Bool-cases (post_recv t).0) [
      | inl ok ↦ rw ok (omega (arith, h, posted, holds-append effects (post_recv t).2))
      | inr failed ↦ rw failed (
          omega (
            arith,
            h,
            posted,
            holds-append effects (post_recv t).2,
            disconnect-ref_count (post_recv t).1,
          ))
    ]

-- A completion gives back the reference that its operation held.
pub recv_completion-MayCount :
    (fuel : ℕ) (s : ClientSession) (failed : Bool) (p : ℕ) (transferred : List ℕ)
    → MayCount (dec_ref_count s) (recv_completion fuel s failed p transferred)
unfolding recv_completion on_read
recv_completion-MayCount fuel s failed p transferred =
    let filled = record (s.recv_buffer) {
      buffer = write_bytes s.recv_buffer.buffer p transferred;
    } in
    let s' : ClientSession = dec_ref_count (record s { recv_buffer = filled }) in
    let read = record s' { recv_buffer = CircularBuffer.commit filled (length transferred) } in
    elim (Bool-cases (not s.connected)) [
      | inl off ↦ rw off (omega arith)
      | inr on ↦ elim (Bool-cases (failed || length transferred == 0)) [
        | inl lost ↦ rw (on, lost) (omega (arith, disconnect-ref_count s'))
        | inr came ↦ rw (on, came) (go (read_loop fuel read) (read_loop-MayCount fuel read))
      ]
    ]
  where
    go :
        (o : Option (Outcome (ClientSession × List Effect)))
        → MayCount (dec_ref_count s) o
        → MayCount
            (dec_ref_count s)
            (elim o [ none ↦ none | some outcome ↦ some (outcome >>= receive_again) ])
    go none h = tt
    go (some outcome) h = receive_again-Counts (dec_ref_count s) outcome h

pub send_completion-ref_count :
    (s t : ClientSession) (failed : Bool) (n : ℕ)
    → send_completion s failed n ≡ returns t
    → t.ref_count ≡ (dec_ref_count s).ref_count
unfolding send_completion on_write_complete disconnect
send_completion-ref_count s t failed n e = ground (arith, e)
