-- ===== src/ClientManager/Handling.antt =====
-- What the handlers of packets and the loop that calls them leave of a session.
use easy_game_server.Prelude.{
  ℕ, zero, suc, ◌≡◌, refl, ◌∙◌, ◌==◌, ◌||◌, not, ltb, Bool-cases, inl, inr, Option, none, some,
  List, arith, Outcome, returns, crashes, ◌>>=◌, Returns_value, strcpy_s, Outcome-cases,
  if◌then◌else◌,
}
use easy_game_server.CircularBuffer
use easy_game_server.CircularBuffer.{CircularBuffer}
use easy_game_server.CircularBuffer.Invariant
use easy_game_server.CircularBuffer.Reading.{read_refines}
use easy_game_server.CircularBuffer.Writing.{get_free_space_size_lem}
use easy_game_server.PacketType.{
  PacketHeader, header_of_bytes, pkt_none, pkt_max, ChatBroadcastRequest, MoveRequest,
  chat_broadcast_result, pkt_cs_login, pkt_cs_chat, pkt_cs_move, login_request,
  chat_broadcast_request, move_request, login_request_of_bytes, chat_broadcast_request_of_bytes,
  move_request_of_bytes,
}
use easy_game_server.PacketType.Words.{size_of_short, ltb_short}
use easy_game_server.ClientSession.{
  ClientSession, Effect, disconnect, post_recv, send_request, broadcast, set_position,
}
use easy_game_server.PacketHandling.{
  Round, stops, continues, on_packet, go_on, on_header, on_peek, prepend, handler_table,
  handler_pkt_cs_login, handler_pkt_cs_chat, handler_pkt_cs_move, default_handler, handle_login,
  handle_chat, handle_move, read_round, read_loop,
}
use easy_game_server.ClientManager.Invariant.{IsSession}
use easy_game_server.ClientManager.Creating.{disconnect-IsSession, send_request-IsSession}

-- The session that was there lives on: it has its socket, and is sound.
abbrev pub Continues : ClientSession → ClientSession → Type 0
Continues s t = (t.socket.handle ≡ s.socket.handle) × IsSession t

-- The same, unless the process stops.
abbrev pub MayContinue : ClientSession → Outcome (ClientSession × List Effect) → Type 0
MayContinue s crashes = Unit
MayContinue s (returns (t, effects)) = Continues s t

-- The same where there may be no result yet.
abbrev pub ContinuesIfDone : ClientSession → Option (Outcome (ClientSession × List Effect)) → Type 0
ContinuesIfDone s none = Unit
ContinuesIfDone s (some o) = MayContinue s o

pub Continues-trans : (s t u : ClientSession) → Continues s t → Continues t u → Continues s u
Continues-trans s t u h k = (k.0 ∙ h.0, k.1)

pub post_recv-Continues : (s : ClientSession) → IsSession s → Continues s (post_recv s).1
unfolding post_recv
post_recv-Continues s w = ground (arith, w, get_free_space_size_lem w.receives)

-- `Broadcast`, and `Disconnect` where it fails.
sends_on : ClientSession → List ℕ → ClientSession × List Effect
sends_on s packet =
    let (ok, t, effects) = broadcast s packet in
    if ok then (t, effects) else (disconnect t, effects)

sends_on-Continues :
    (s : ClientSession) (packet : List ℕ) → IsSession s → Continues s (sends_on s packet).0
unfolding sends_on broadcast
sends_on-Continues s packet w =
    let (key, good) = send_request-IsSession s packet w in
    let (key', off) = disconnect-IsSession (send_request s packet).1 good in
    ground (arith, key, good, key', off)

handle_chat-Continues :
    (s : ClientSession) (p : ChatBroadcastRequest) → IsSession s → MayContinue s (handle_chat s p)
unfolding handle_chat sends_on
handle_chat-Continues s p w = elim (Bool-cases (p.player_id == s.player_id)) [
  | inr other ↦ rw other (refl, w)
  | inl own ↦ elim (Outcome-cases (strcpy_s chat_broadcast_result.name s.player_name)) [
    | inl long ↦ rw (own, long) tt
    | inr (name, named) ↦ elim (Outcome-cases (strcpy_s chat_broadcast_result.chat p.chat)) [
      | inl long ↦ rw (own, named, long) tt
      | inr (chat, said) ↦ rw (own, named, said) (sends_on-Continues s _ w)
    ]
  ]
]

handle_move-Continues :
    (s : ClientSession) (p : MoveRequest) → IsSession s → MayContinue s (handle_move s p)
unfolding handle_move sends_on
handle_move-Continues s p w = elim (Bool-cases (p.player_id == s.player_id)) [
  | inr other ↦ rw other (refl, w)
  | inl own ↦ rw own (
      sends_on-Continues (set_position s p.pos_x p.pos_y) _
        (record { named = w.named; sends = w.sends; receives = w.receives }))
]

-- A handler reads its packet, which leaves the buffer valid, and handles it.
parsed-Continues :
    {A : Type 0} (s : ClientSession) (of_bytes : List ℕ → A)
    (handle : ClientSession → A → Outcome (ClientSession × List Effect)) (size : ℕ)
    → ((t : ClientSession) (p : A) → IsSession t → MayContinue t (handle t p))
    → IsSession s
    → MayContinue s (
        (CircularBuffer.read s.recv_buffer size >>= λ (bytes, buffer).
        returns (bytes, record s { recv_buffer = buffer }))
        >>= on_packet of_bytes handle)
parsed-Continues s of_bytes handle size h w =
    let ((out, buffer), f, v) =
      Returns_value (CircularBuffer.read s.recv_buffer size) _ (read_refines size w.receives) in
    rw f (go out buffer v.0)
  where
    go :
        (out : Option (List ℕ)) (buffer : CircularBuffer)
        → Invariant.IsValid buffer
        → MayContinue s (on_packet of_bytes handle (out, record s { recv_buffer = buffer }))
    go none buffer v = (refl, record { named = w.named; sends = w.sends; receives = v })
    go (some bytes) buffer v =
        h (record s { recv_buffer = buffer }) (of_bytes bytes)
          (record { named = w.named; sends = w.sends; receives = v })

handler_table-Continues :
    (type : ℕ) (s : ClientSession) → IsSession s → MayContinue s (handler_table type s)
unfolding handler_table handler_pkt_cs_login handler_pkt_cs_chat handler_pkt_cs_move default_handler
    handle_login
handler_table-Continues type s w = elim (Bool-cases (type == pkt_cs_login)) [
  | inl login ↦ rw login (
      parsed-Continues s login_request_of_bytes handle_login login_request.header.size
        (λ t p good. (refl, good)) w)
  | inr other ↦ elim (Bool-cases (type == pkt_cs_chat)) [
    | inl chat ↦
        rw (other, chat)
          (parsed-Continues s chat_broadcast_request_of_bytes handle_chat
            chat_broadcast_request.header.size handle_chat-Continues w)
    | inr others ↦ elim (Bool-cases (type == pkt_cs_move)) [
      | inl move ↦
          rw (other, others, move)
            (parsed-Continues s move_request_of_bytes handle_move move_request.header.size
              handle_move-Continues w)
      | inr unknown ↦ rw (other, others, unknown) (disconnect-IsSession s w)
    ]
  ]
]

abbrev RoundContinues : ClientSession → Outcome Round → Type 0
RoundContinues s crashes = Unit
RoundContinues s (returns (stops t effects)) = Continues s t
RoundContinues s (returns (continues t effects)) = Continues s t

go_on-Continues :
    (s : ClientSession) (o : Outcome (ClientSession × List Effect))
    → MayContinue s o
    → RoundContinues s (o >>= go_on)
go_on-Continues s crashes h = tt
go_on-Continues s (returns (t, effects)) h = h

on_header-Continues :
    (s : ClientSession) (header : PacketHeader)
    → IsSession s
    → RoundContinues s (on_header s header)
on_header-Continues s header w =
    elim (Bool-cases
      (ltb (CircularBuffer.get_stored_size s.recv_buffer) (size_of_short header.size))) [
        | inl part ↦ rw part (refl, w)
        | inr whole ↦
            elim (Bool-cases
              (not (ltb_short header.type pkt_max) || not (ltb_short pkt_none header.type))) [
                | inl bad ↦ rw (whole, bad) (disconnect-IsSession s w)
                | inr good ↦
                    rw (whole, good)
                      (go_on-Continues s (handler_table header.type s)
                        (handler_table-Continues header.type s w))
              ]
      ]

read_round-Continues : (s : ClientSession) → IsSession s → RoundContinues s (read_round s)
unfolding read_round
read_round-Continues s w = go (CircularBuffer.peek s.recv_buffer 4)
  where
    go : (o : Outcome (Option (List ℕ))) → RoundContinues s (o >>= on_peek s)
    go crashes = tt
    go (returns none) = (refl, w)
    go (returns (some bytes)) = on_header-Continues s (header_of_bytes bytes) w

pub read_loop-Continues :
    (fuel : ℕ) (s : ClientSession) → IsSession s → ContinuesIfDone s (read_loop fuel s)
unfolding read_loop
read_loop-Continues zero s w = tt
read_loop-Continues (suc fuel) s w =
    go (read_round s) (read_round-Continues s w) (read_loop-Continues fuel)
  where
    later :
        (t : ClientSession) (effects : List Effect)
        (o : Option (Outcome (ClientSession × List Effect)))
        → Continues s t
        → ContinuesIfDone t o
        → ContinuesIfDone s (elim o [ none ↦ none | some outcome ↦ some (prepend effects outcome) ])
    later t effects none h k = tt
    later t effects (some crashes) h k = tt
    later t effects (some (returns (u, more))) h k = Continues-trans s t u h k

    go :
        (o : Outcome Round)
        → RoundContinues s o
        → ((t : ClientSession) → IsSession t → ContinuesIfDone t (read_loop fuel t))
        → ContinuesIfDone s (elim o [
          | crashes ↦ some crashes
          | returns (stops s' effects) ↦ some (returns (s', effects))
          | returns (continues s' effects) ↦ elim (read_loop fuel s') [
            | none ↦ none
            | some outcome ↦ some (prepend effects outcome)
          ]
        ])
    go crashes h ih = tt
    go (returns (stops t effects)) h ih = h
    go (returns (continues t effects)) h ih = later t effects (read_loop fuel t) h (ih t h.1)
