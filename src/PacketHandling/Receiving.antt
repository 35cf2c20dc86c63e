-- ===== src/PacketHandling/Receiving.antt =====
-- A receive from its start to what is done with its bytes.
use easy_game_server.Prelude.{
  All, ℕ, ◌+◌, ◌≤◌, ◌<◌, ◌≡◌, ◌∙◌, List, [], ◌∷◌, ◌++◌, length, arith, ◌>>=◌, true, false, some,
  Outcome, returns, crashes, ◌&&◌, ◌||◌, not, suc, refl, Bool-cases, inl, inr, if◌then◌else◌,
}
use easy_game_server.CircularBuffer
use easy_game_server.CircularBuffer.{CircularBuffer}
use easy_game_server.CircularBuffer.Invariant.{IsValid, contents}
use easy_game_server.CircularBuffer.Writing.{
  receive_refines, get_free_space_size_lem, get_free_space_size-twice,
}
use easy_game_server.ClientSession.{
  ClientSession, Effect, disconnect, starts_recv, inc_ref_count, dec_ref_count, post_recv, answer,
  asked,
}
use easy_game_server.PacketHandling.{on_read, recv_completion, receive_again}
use easy_game_server.PacketHandling.Requests.{
  Request, IsRequest, process, with_recv_buffer, receiving,
}
use easy_game_server.PacketHandling.Framing.{IsIncomplete, stream, loop_processes}

-- `PostRecv` on a connected session with a valid receive buffer: where Winsock takes it, one receive
-- is started and counted, into room that lies inside the block; the bytes held are as they were.
pub post_recv_lem :
    (s : ClientSession)
    → s.connected ≡ true
    → IsValid s.recv_buffer
    → let (ok, t, effects) = post_recv s in
      let p = CircularBuffer.get_buffer t.recv_buffer in
      let n = (CircularBuffer.get_free_space_size s.recv_buffer).0 in
      (ok ≡ answer s)
      × (effects ≡ (if ok then starts_recv p n ∷ [] else []))
      × (t.ref_count ≡ (if ok then inc_ref_count s else s).ref_count)
      × (p + n ≤ length t.recv_buffer.buffer)
      × IsValid t.recv_buffer
      × (contents t.recv_buffer ≡ contents s.recv_buffer)
unfolding post_recv
post_recv_lem s on v = ground (arith, on, get_free_space_size_lem v)

-- What is done with the bytes of a receive, up to the next `PostRecv`.
pub recv_completion-process :
    (rs : List Request) (rest transferred : List ℕ) (b : CircularBuffer)
    → All IsRequest rs
    → IsIncomplete rest
    → IsValid b
    → 0 < length transferred
    → length transferred ≤ (CircularBuffer.get_free_space_size b).0
    → contents b ++ transferred ≡ stream rs rest
    → let posted = (CircularBuffer.get_free_space_size b).1 in
      (c : CircularBuffer) × IsValid c
      × (contents c ≡ rest)
      × ((fuel : ℕ) (s : ClientSession)
          → length rs < fuel
          → s.connected ≡ true
          → recv_completion fuel
              (with_recv_buffer posted s)
              false
              (CircularBuffer.get_buffer posted)
              transferred
            ≡ some (receiving c (process (dec_ref_count s) rs) >>= receive_again))
unfolding recv_completion on_read
recv_completion-process rs rest transferred b h k v some_bytes fits e =
    let (w, f, g) = receive_refines transferred v fits in
    let (c, x, y, z) = loop_processes rs rest _ h k w (f ∙ e) in
    (c, x, y, λ fuel s enough on. ground (arith, on, some_bytes, z fuel (dec_ref_count s) enough))

-- What `RecvCompletion` leaves after the handlers: nothing, if one stopped the process. Else `rest`
-- waits in a valid receive buffer. If the session is still connected and Winsock takes it, the next
-- receive is started into the room behind `rest`, which lies inside the block, and is counted. If
-- Winsock refuses it, `Disconnect` is called, which Winsock can refuse as well. A session that is no
-- longer connected starts nothing.
abbrev pub Completes :
    List ℕ → Outcome (ClientSession × List Effect) → Outcome (ClientSession × List Effect) → Type 0
Completes rest crashes m = m ≡ crashes
Completes rest (returns (t, effects)) m =
    (u : ClientSession) × (m
      ≡ returns (
        u,
        effects
            ++ (if t.connected && answer t
                then starts_recv (CircularBuffer.get_buffer u.recv_buffer)
                    (CircularBuffer.get_free_space_size u.recv_buffer).0
                  ∷ []
                else []),
      ))
    × IsValid u.recv_buffer
    × (contents u.recv_buffer ≡ rest)
    × ((if t.connected
          then CircularBuffer.get_buffer u.recv_buffer
            + (CircularBuffer.get_free_space_size u.recv_buffer).0
          else 0)
        ≤ length u.recv_buffer.buffer)
    × (u.connected ≡ (t.connected && (answer t || not (t.socket.answers (suc t.socket.calls)))))
    × (u.ref_count ≡ (if t.connected && answer t then inc_ref_count t else t).ref_count)

receive_again-Completes :
    (c : CircularBuffer) (rest : List ℕ) (o : Outcome (ClientSession × List Effect))
    → IsValid c
    → contents c ≡ rest
    → Completes rest o (receiving c o >>= receive_again)
unfolding post_recv disconnect
receive_again-Completes c rest crashes v e = refl
receive_again-Completes c rest (returns (t, effects)) v e =
    let posted = (CircularBuffer.get_free_space_size c).1 in
    let asked_once = asked (with_recv_buffer posted t) in
    let room = get_free_space_size_lem v in
    let again = get_free_space_size-twice c in
    elim (Bool-cases t.connected) [
      | inr off ↦ (
        with_recv_buffer c t,
        ground (arith, off),
        v,
        e,
        ground (arith, off),
        ground (arith, off),
        ground (arith, off),
      )
      | inl on ↦ elim (Bool-cases (answer t)) [
        | inl took ↦ (
          inc_ref_count asked_once,
          ground (arith, on, took, again),
          room.0,
          room.1 ∙ e,
          ground (arith, room, again),
          ground (arith, on, took),
          ground (arith, on, took),
        )
        | inr refused ↦ (
          disconnect asked_once,
          ground (arith, on, refused),
          ground (arith, on, refused, room),
          ground (arith, on, refused, room, e),
          ground (arith, on, refused, room, again),
          ground (arith, on, refused),
          ground (arith, on, refused),
        )
      ]
    ]

-- Bytes arrive in a receive that was started when the receive buffer was valid, at least one and no
-- more than there was room for. With the bytes held they make whole requests and then part of one.
-- Then, given more rounds than there are requests, the completion on a connected session handles
-- each request, in order and once, and stops where a handler stops the process. Else the part of a
-- request waits in a valid receive buffer. If the session is still connected and Winsock takes it,
-- the next receive is started, into room inside the block, and counted; if Winsock refuses it, the
-- session is disconnected, unless that is refused as well. If the session is no longer connected,
-- no receive is started.
pub recv_completion_lem :
    (rs : List Request) (rest transferred : List ℕ) (b : CircularBuffer) (fuel : ℕ)
    (s : ClientSession)
    → All IsRequest rs
    → IsIncomplete rest
    → IsValid b
    → 0 < length transferred
    → length transferred ≤ (CircularBuffer.get_free_space_size b).0
    → contents b ++ transferred ≡ stream rs rest
    → length rs < fuel
    → s.connected ≡ true
    → let posted = (CircularBuffer.get_free_space_size b).1 in
      (m : Outcome (ClientSession × List Effect)) × (recv_completion fuel
          (with_recv_buffer posted s)
          false
          (CircularBuffer.get_buffer posted)
          transferred
        ≡ some m)
      × Completes rest (process (dec_ref_count s) rs) m
recv_completion_lem rs rest transferred b fuel s h k v some_bytes fits e enough on =
    let (c, x, y, z) = recv_completion-process rs rest transferred b h k v some_bytes fits e in
    let handled = process (dec_ref_count s) rs in
    (
      receiving c handled >>= receive_again,
      z fuel s enough on,
      receive_again-Completes c rest handled x y,
    )
