-- ===== src/TcpClient/Ending.antt =====
-- Whether the loop of `processPacket` ends.
use easy_game_server.Prelude.{
  Bool, true, false, not, ◌||◌, ◌==◌, ltb, Bool-cases, Option-cases, ℕ, zero, suc, ◌<◌, ◌≡◌, refl,
  ◌⊎◌, inl, inr, List, [], ◌∷◌, length, arith, Outcome, returns, crashes, ◌>>=◌, ◌>>◌, Option, none,
  some, length-drop, Returns_value, subst, sym, assert,
}
use easy_game_server.PacketType.{
  header_of_bytes, minus_one, pkt_sc_login, pkt_sc_chat, pkt_sc_move, login_result,
  login_result_of_bytes, chat_broadcast_result, chat_broadcast_result_of_bytes,
  move_broadcast_result, move_broadcast_result_of_bytes, LoginResult, ChatBroadcastResult,
  MoveBroadcastResult,
}
use easy_game_server.PacketType.Words.{size_of_short}
use easy_game_server.CircularBuffer
use easy_game_server.CircularBuffer.{CircularBuffer}
use easy_game_server.CircularBuffer.Fifo
use easy_game_server.CircularBuffer.Invariant.{IsValid, contents}
use easy_game_server.CircularBuffer.Reading.{peek_refines, read_refines}
use easy_game_server.TcpClient.{
  TcpClient, SceneCall, Round, ends, continues, read_packet, dispatch, packet_round, process_packet,
  prepend, chat_draw, update_me, update_peer, login_received, chat_received, move_received,
}
use easy_game_server.TcpClient.Results.{with_recv_buffer}

abbrev Step : Type 0
Step = Outcome (TcpClient × List SceneCall)

-- A buffer that is valid and holds fewer bytes.
abbrev IsLess : CircularBuffer → CircularBuffer → Type 0
IsLess b c = IsValid c × (length (contents c) < length (contents b))

abbrev Shrinks : CircularBuffer → Step → Type 0
Shrinks b crashes = Unit
Shrinks b (returns (c, calls)) = IsLess b c.recv_buffer

-- What is done with a client that has this buffer: it stops, or takes bytes; or it takes none, in a
-- Release build, whatever else the client holds.
abbrev Moves : Bool → CircularBuffer → (TcpClient → Step) → Type 0
Moves debug b f =
    ((d : TcpClient) → Shrinks b (f (with_recv_buffer b d)))
    ⊎ ((debug ≡ false)
        × ((d : TcpClient)
            → (e : TcpClient) × (calls : List SceneCall) × (f (with_recv_buffer b d)
                ≡ returns (with_recv_buffer b e, calls))))

-- What is done with a packet does not change the receive buffer.
abbrev Leaves : CircularBuffer → Step → Type 0
Leaves b crashes = Unit
Leaves b (returns (c, calls)) = c.recv_buffer ≡ b

Leaves-Shrinks : (b c : CircularBuffer) (m : Step) → IsLess b c → Leaves c m → Shrinks b m
Leaves-Shrinks b c crashes less same = tt
Leaves-Shrinks b c (returns (d, calls)) less same = subst (IsLess b) (sym same) less

read_packet-Moves :
    {A : Type 0} (debug : Bool) (b : CircularBuffer) (packet : A) (size : ℕ) (of_bytes : List ℕ → A)
    (id : A → ℕ) (k : A × TcpClient → Step)
    → IsValid b
    → 0 < size
    → ((p : A) (d : TcpClient) → Leaves d.recv_buffer (k (p, d)))
    → ((d : TcpClient)
        → (e : TcpClient) × (calls : List SceneCall) × (k (packet, with_recv_buffer b d)
            ≡ returns (with_recv_buffer b e, calls)))
    → Moves debug b (λ d. read_packet debug d packet size of_bytes id >>= k)
read_packet-Moves {A} debug b packet size of_bytes id k v h leaves again =
    let ((out, c), f, p) = Returns_value (CircularBuffer.read b size) _ (read_refines size v) in
    go debug out c f (ground (arith, p, h, length-drop size (contents b))) p.3
  where
    checked :
        (ok : Bool) (c : CircularBuffer) (p : A) (d : TcpClient)
        → IsLess b c
        → Shrinks b ((assert ok >> returns (p, with_recv_buffer c d)) >>= k)
    checked true c p d less =
        Leaves-Shrinks b c (k (p, with_recv_buffer c d)) less (leaves p (with_recv_buffer c d))
    checked false c p d less = tt

    go :
        (debug : Bool) (out : Option (List ℕ)) (c : CircularBuffer)
        → CircularBuffer.read b size ≡ returns (out, c)
        → (out ≡ none) ⊎ IsLess b c
        → (out ≡ none → c ≡ b)
        → Moves debug b (λ d. read_packet debug d packet size of_bytes id >>= k)
    go debug (some bytes) c f (inr less) same = inl (λ d.
        rw f (
          checked (not (id (of_bytes bytes) == 4294967295) || not debug) c (of_bytes bytes) d less))
    go debug (some bytes) c f (inl e) same = absurd (cc e)
    go true none c f less same = inl (λ d. rw f tt)
    go false none c f less same = inr (refl, λ d. rw (f, same refl) (again d))

login_received-Leaves :
    (c : TcpClient) (p : LoginResult) → Leaves c.recv_buffer (returns (login_received c p))
unfolding login_received
login_received-Leaves c p = refl

chat_received-Leaves :
    (c : TcpClient) (p : ChatBroadcastResult) → Leaves c.recv_buffer (chat_received c p)
unfolding chat_received
chat_received-Leaves c p = ground arith

move_received-Leaves :
    (c : TcpClient) (p : MoveBroadcastResult) → Leaves c.recv_buffer (returns (move_received c p))
unfolding move_received
move_received-Leaves c p = ground arith

-- A packet as it is constructed is handled again and again.
abbrev Recurs : CircularBuffer → Step → Type 0
Recurs b m =
    (e : TcpClient) × (calls : List SceneCall) × (m ≡ returns (with_recv_buffer b e, calls))

login_received-Recurs :
    (b : CircularBuffer) (d : TcpClient)
    → Recurs b (returns (login_received (with_recv_buffer b d) login_result))
unfolding login_received
login_received-Recurs b d = (record d { login_id = minus_one }, [], refl)

move_received-Recurs :
    (b : CircularBuffer) (d : TcpClient)
    → Recurs b (returns (move_received (with_recv_buffer b d) move_broadcast_result))
unfolding move_received
move_received-Recurs b d = elim (Bool-cases (minus_one == d.login_id)) [
  | inl me ↦ rw me (d, update_me 0 0 ∷ [], refl)
  | inr peer ↦ rw peer (d, update_peer minus_one 0 0 ∷ [], refl)
]

unknown-Moves :
    (debug : Bool) (b : CircularBuffer)
    → Moves debug b (λ c. assert (false || not debug) >> returns (c, []))
unknown-Moves true b = inl (λ d. tt)
unknown-Moves false b = inr (refl, λ d. (d, [], refl))

dispatch-Moves :
    (debug : Bool) (b : CircularBuffer) (type : ℕ)
    → IsValid b
    → Moves debug b (λ c. dispatch debug c type)
unfolding dispatch
dispatch-Moves debug b type v = elim (Bool-cases (type == pkt_sc_login)) [
  | inl login ↦ rw login (
      read_packet-Moves debug b login_result 46 login_result_of_bytes (λ p. p.player_id)
        (λ (p, c). returns (login_received c p)) v (omega arith) (λ p d. login_received-Leaves d p)
        (login_received-Recurs b))
  | inr other ↦ elim (Bool-cases (type == pkt_sc_chat)) [
    | inl chat ↦
        rw (other, chat)
          (read_packet-Moves debug b chat_broadcast_result 294 chat_broadcast_result_of_bytes
            (λ p. p.player_id) (λ (p, c). chat_received c p) v (omega arith)
            (λ p d. chat_received-Leaves d p) λ d. (d, chat_draw [] [] ∷ [], refl))
    | inr others ↦ elim (Bool-cases (type == pkt_sc_move)) [
      | inl move ↦
          rw (other, others, move)
            (read_packet-Moves debug b move_broadcast_result 16 move_broadcast_result_of_bytes
              (λ p. p.player_id) (λ (p, c). returns (move_received c p)) v (omega arith)
              (λ p d. move_received-Leaves d p) (move_received-Recurs b))
      | inr unknown ↦ rw (other, others, unknown) (unknown-Moves debug b)
    ]
  ]
]

abbrev Progresses : CircularBuffer → Outcome Round → Type 0
Progresses b crashes = Unit
Progresses b (returns ends) = Unit
Progresses b (returns (continues c calls)) = IsLess b c.recv_buffer

-- A round with this buffer ends the loop, stops the process or takes bytes; or, in a Release build,
-- the loop goes on with the same buffer, whatever else the client holds.
abbrev Repeats : Bool → CircularBuffer → Type 0
Repeats debug b =
    (d : TcpClient)
    → (e : TcpClient) × (calls : List SceneCall) × (packet_round debug (with_recv_buffer b d)
        ≡ returns (continues (with_recv_buffer b e) calls))

dispatched :
    (b : CircularBuffer) (m : Step)
    → Shrinks b m
    → Progresses b (m >>= λ (c, calls). returns (continues c calls))
dispatched b crashes h = tt
dispatched b (returns (c, calls)) h = h

packet_round-cases :
    (debug : Bool) (b : CircularBuffer)
    → IsValid b
    → ((d : TcpClient) → Progresses b (packet_round debug (with_recv_buffer b d)))
      ⊎ ((debug ≡ false) × Repeats debug b)
unfolding packet_round
packet_round-cases debug b v = elim (Option-cases (Fifo.peek (contents b) 4)) [
  | inl few ↦ inl (λ d. rw (peek_refines 4 v, few) tt)
  | inr (bytes, front) ↦
      let header = header_of_bytes bytes in
      elim (Bool-cases (ltb (CircularBuffer.get_stored_size b) (size_of_short header.size))) [
        | inl part ↦ inl (λ d. rw (peek_refines 4 v, front, part) tt)
        | inr whole ↦ elim (dispatch-Moves debug b header.type v) [
          | inl less ↦ inl (λ d.
              rw (peek_refines 4 v, front, whole)
                (dispatched b (dispatch debug (with_recv_buffer b d) header.type) (less d)))
          | inr (release, again) ↦ inr (
            release,
            λ d.
                let (e, calls, same) = again d in
                (e, calls, rw (peek_refines 4 v, front, whole, same) refl),
          )
        ]
      ]
]

Repeats-hangs :
    (debug : Bool) (b : CircularBuffer)
    → Repeats debug b
    → (n : ℕ) (d : TcpClient) → process_packet debug n (with_recv_buffer b d) ≡ none
unfolding process_packet
Repeats-hangs debug b h zero d = refl
Repeats-hangs debug b h (suc n) d =
    let (e, calls, same) = h d in rw (same, process_packet, Repeats-hangs debug b h n e) refl

-- On a valid receive buffer the loop of `processPacket` ends, given more rounds than the buffer
-- holds bytes. Or it never ends; but this happens only in a build without assertions.
pub process_packet_ends :
    (debug : Bool) (fuel : ℕ) (c : TcpClient)
    → IsValid c.recv_buffer
    → length (contents c.recv_buffer) < fuel
    → ((outcome : Step) × (process_packet debug fuel c ≡ some outcome))
      ⊎ ((debug ≡ false) × ((n : ℕ) → process_packet debug n c ≡ none))
unfolding process_packet
process_packet_ends debug zero c v h = absurd (omega arith)
process_packet_ends debug (suc fuel) c v h = elim (packet_round-cases debug c.recv_buffer v) [
  | inr (release, again) ↦ inr (release, λ n. Repeats-hangs debug c.recv_buffer again n c)
  | inl less ↦ go (packet_round debug c) refl (less c) (process_packet_ends debug fuel)
]
  where
    go :
        (m : Outcome Round)
        → packet_round debug c ≡ m
        → Progresses c.recv_buffer m
        → ((d : TcpClient)
            → IsValid d.recv_buffer
            → length (contents d.recv_buffer) < fuel
            → ((outcome : Step) × (process_packet debug fuel d ≡ some outcome))
              ⊎ ((debug ≡ false) × ((n : ℕ) → process_packet debug n d ≡ none)))
        → ((outcome : Step) × (process_packet debug (suc fuel) c ≡ some outcome))
          ⊎ ((debug ≡ false) × ((n : ℕ) → process_packet debug n c ≡ none))
    go crashes e p ih = inl (crashes, rw (e, process_packet) refl)
    go (returns ends) e p ih = inl (returns (c, []), rw (e, process_packet) refl)
    go (returns (continues d calls)) e p ih = elim (ih d p.0 (omega (arith, p.1))) [
      | inl (outcome, f) ↦ inl (prepend calls outcome, rw (e, process_packet, f) refl)
      | inr (release, hangs) ↦ inr (
        release,
        λ n. elim n as (λ k. process_packet debug k c ≡ none) [
          | zero ↦ refl
          | suc k ↦ rw (e, process_packet, hangs k) refl
        ],
      )
    ]
