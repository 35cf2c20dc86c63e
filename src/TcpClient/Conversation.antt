-- ===== src/TcpClient/Conversation.antt =====
-- The game client's calls, from `moveRequest` and `chatRequest` to what the server does with them.
use easy_game_server.Prelude.{
  All, ℕ, suc, ◌^◌, ◌≤◌, ◌<◌, ◌≡◌, refl, sym, ◌∙◌, ap, List, [], ◌∷◌, ◌++◌, length, take, arith,
  Outcome, returns, ◌>>=◌, true, false, Option, none, some, find_nul, write_bytes, replicate,
  append-nil, append_assoc, map, length-map, inl,
}
use easy_game_server.PacketType.{chat_broadcast_request, move_request}
use easy_game_server.CircularBuffer
use easy_game_server.CircularBuffer.{CircularBuffer}
use easy_game_server.CircularBuffer.Invariant.{IsValid, contents}
use easy_game_server.ClientSession.{ClientSession, dec_ref_count}
use easy_game_server.PacketHandling.{recv_completion, receive_again}
use easy_game_server.PacketHandling.Requests.{
  Request, chat, move, request_bytes, IsRequest, process, with_recv_buffer, receiving,
}
use easy_game_server.PacketHandling.Framing.{stream}
use easy_game_server.PacketHandling.Receiving.{recv_completion-process}
use easy_game_server.TcpClient.{
  TcpClient, called, is_negative, chat_request_sent, move_request_sent,
}
use easy_game_server.TcpClient.Requests.{
  TakesAll, move_request_sent-eq, chat_request_sent-eq, move-IsRequest, chat-IsRequest,
}

pub data Call : Type 0 where
  moves : ℕ → ℕ → Call
  chats : List ℕ → ℕ → Call

-- A place is two words of 32 bits; a text has its 0 behind `n` bytes, which fit into the packet.
abbrev pub IsCall : Call → Type 0
IsCall (moves x y) = (x < 2 ^ 32) × (y < 2 ^ 32)
IsCall (chats text n) = (find_nul text ≡ some n) × (length (take n text) ≤ 256)

-- The request that the player `id` makes with a call.
abbrev pub request_of : ℕ → Call → Request
request_of id (moves x y) = move (record move_request { player_id = id; pos_x = x; pos_y = y })
request_of id (chats text n) = chat (record chat_broadcast_request {
  player_id = id;
  chat = write_bytes (replicate 256 0) 0 (take n text);
})

abbrev pub call : ℕ → Call → TcpClient → Outcome (Option TcpClient)
call fuel (moves x y) c = returns (move_request_sent fuel x y c)
call fuel (chats text n) c = chat_request_sent fuel text c

-- Calls one after the other.
unfoldable pub run_calls : ℕ → List Call → TcpClient → Outcome (Option TcpClient)
run_calls fuel [] c = returns (some c)
run_calls fuel (k ∷ ks) c =
    call fuel k c >>= λ out. elim out [ none ↦ returns none | some c' ↦ run_calls fuel ks c' ]

request_of-IsRequest :
    (id : ℕ) (k : Call) → is_negative id ≡ false → IsCall k → IsRequest (request_of id k)
request_of-IsRequest id (moves x y) logged h = move-IsRequest id x y logged h.0 h.1
request_of-IsRequest id (chats text n) logged h = chat-IsRequest id (take n text) logged

call-eq :
    (fuel : ℕ) (k : Call) (c : TcpClient)
    → TakesAll c.sock
    → is_negative c.login_id ≡ false
    → IsCall k
    → call (suc (suc fuel)) k c
      ≡ returns (some (record c { sock = called c.sock (request_bytes (request_of c.login_id k)) }))
call-eq fuel (moves x y) c t logged h =
    ap returns (move_request_sent-eq fuel x y c t logged h.0 h.1)
call-eq fuel (chats text n) c t logged h = chat_request_sent-eq fuel n text c t logged h.0 h.1

-- All of the calls' requests go to the socket, one behind the other.
run_calls-sent :
    (fuel : ℕ) (ks : List Call) (c : TcpClient)
    → TakesAll c.sock
    → is_negative c.login_id ≡ false
    → All IsCall ks
    → All IsRequest (map (request_of c.login_id) ks)
      × (c' : TcpClient) × (run_calls (suc (suc fuel)) ks c ≡ returns (some c'))
      × (c'.sock.sent ≡ c.sock.sent ++ stream (map (request_of c.login_id) ks) [])
unfolding run_calls
run_calls-sent fuel [] c t logged h = (tt, c, refl, sym (append-nil c.sock.sent))
run_calls-sent fuel (k ∷ ks) c t logged h =
    let bytes = request_bytes (request_of c.login_id k) in
    let next = record c { sock = called c.sock bytes } in
    let (valid, c', e, f) = run_calls-sent fuel ks next t logged h.1 in
    (
      (request_of-IsRequest c.login_id k logged h.0, valid),
      c',
      rw (call-eq fuel k c t logged h.0) e,
      f ∙ append_assoc c.sock.sent bytes (stream (map (request_of c.login_id) ks) []),
    )

-- A client that is logged in, on a socket that takes all it is offered, asks for moves to places and
-- chats with texts that fit. Their requests, received by the server as the only bytes in a valid buffer
-- that has room for them, are handled in the order of the calls and once each, given more rounds than
-- calls, unless a handler stops the process, and nothing is left of them.
pub conversation_lem :
    (fuel : ℕ) (ks : List Call) (c : TcpClient) (b : CircularBuffer)
    → TakesAll c.sock
    → c.sock.sent ≡ []
    → is_negative c.login_id ≡ false
    → All IsCall ks
    → IsValid b
    → contents b ≡ []
    → let requests = map (request_of c.login_id) ks in
      let posted = (CircularBuffer.get_free_space_size b).1 in
      0 < length (stream requests [])
      → length (stream requests []) ≤ (CircularBuffer.get_free_space_size b).0
      → (c' : TcpClient) × (d : CircularBuffer) × IsValid d
        × (contents d ≡ [])
        × (run_calls (suc (suc fuel)) ks c ≡ returns (some c'))
        × ((rounds : ℕ) (s : ClientSession)
            → length ks < rounds
            → s.connected ≡ true
            → recv_completion rounds
                (with_recv_buffer posted s)
                false
                (CircularBuffer.get_buffer posted)
                c'.sock.sent
              ≡ some (receiving d (process (dec_ref_count s) requests) >>= receive_again))
conversation_lem fuel ks c b t fresh logged h v empty some_bytes fits =
    let requests = map (request_of c.login_id) ks in
    let (valid, c', e, f) = run_calls-sent fuel ks c t logged h in
    let all_sent : c'.sock.sent ≡ stream requests [] =
      f ∙ ap (λ before. before ++ stream requests []) fresh in
    let (d, w, g, later) =
      recv_completion-process requests [] c'.sock.sent b valid (inl (omega arith)) v
        (rw all_sent some_bytes) (rw all_sent fits) (rw (empty, all_sent) refl) in
    (
      c',
      d,
      w,
      g,
      e,
      λ rounds s enough on.
          later rounds s (omega (arith, length-map (request_of c.login_id) ks)) on,
    )
