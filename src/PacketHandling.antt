-- ===== src/PacketHandling.antt =====
-- EasyServer/EasyServer/PacketHandling.cpp: the completion routines of receives and sends, the loop
-- that takes packets out of the receive buffer, and the handlers of the packets.
pub mod Requests
pub mod Hanging
pub mod Framing
pub mod Receiving
pub mod Chat
pub mod References
mod Tests
use easy_game_server.Prelude.{
  ℕ, zero, suc, ◌+◌, ltb, ◌==◌, if◌then◌else◌, Bool, true, false, not, ◌||◌, Option, none, some,
  List, [], ◌∷◌, ◌++◌, Outcome, returns, crashes, ◌>>=◌, length, write_bytes, strcpy_s,
}
use easy_game_server.CircularBuffer
use easy_game_server.PacketType.{
  PacketHeader, header_of_bytes, pkt_none, pkt_max, pkt_cs_login, pkt_cs_chat, pkt_cs_move,
  LoginRequest, login_request, login_request_of_bytes, ChatBroadcastRequest, chat_broadcast_request,
  chat_broadcast_request_of_bytes, ChatBroadcastResult, chat_broadcast_result,
  chat_broadcast_result_bytes, MoveRequest, move_request, move_request_of_bytes,
  MoveBroadcastResult, move_broadcast_result, move_broadcast_result_bytes,
}
use easy_game_server.PacketType.Words.{size_of_short, ltb_short}
use easy_game_server.DatabaseJobContext.{load_player, load_player_data}
use easy_game_server.ClientSession.{
  ClientSession, Effect, pushes_request, dec_ref_count, set_position, disconnect, post_recv,
  on_write_complete, broadcast,
}

abbrev pub Handler : Type 0
Handler = ClientSession → Outcome (ClientSession × List Effect)

unfoldable pub default_handler : Handler
default_handler s = returns (disconnect s, [])

-- `ParsePacket` on a packet of that size; `none` is `false`.
abbrev parse_packet : ClientSession → ℕ → Outcome (Option (List ℕ) × ClientSession)
parse_packet s size = CircularBuffer.read s.recv_buffer size >>= λ (bytes, buffer).
    returns (bytes, record s { recv_buffer = buffer })

-- What a handler does when it has the packet's bytes.
unfoldable pub handle_login : ClientSession → LoginRequest → Outcome (ClientSession × List Effect)
handle_login s packet =
    returns
      (s, pushes_request (load_player (load_player_data s.socket.handle packet.player_id)) ∷ [])

-- `Broadcast`, and `Disconnect` where it fails.
abbrev broadcast_or_disconnect : ClientSession → List ℕ → ClientSession × List Effect
broadcast_or_disconnect s packet =
    let (ok, s', effects) = broadcast s packet in
    if ok then (s', effects) else (disconnect s', effects)

unfoldable pub handle_chat :
    ClientSession → ChatBroadcastRequest → Outcome (ClientSession × List Effect)
handle_chat s packet =
    if packet.player_id == s.player_id
    then (strcpy_s chat_broadcast_result.name s.player_name >>= λ name.
        strcpy_s chat_broadcast_result.chat packet.chat >>= λ chat.
        let result : ChatBroadcastResult = record chat_broadcast_result {
          player_id = packet.player_id;
          name = name;
          chat = chat;
        } in
        returns (broadcast_or_disconnect s (chat_broadcast_result_bytes result)))
    else returns (s, [])

unfoldable pub handle_move : ClientSession → MoveRequest → Outcome (ClientSession × List Effect)
handle_move s packet =
    if packet.player_id == s.player_id
    then (let s' = set_position s packet.pos_x packet.pos_y in
        let result : MoveBroadcastResult = record move_broadcast_result {
          player_id = packet.player_id;
          pos_x = packet.pos_x;
          pos_y = packet.pos_y;
        } in
        returns (broadcast_or_disconnect s' (move_broadcast_result_bytes result)))
    else returns (s, [])

-- A packet that is not there is left, with a message.
abbrev pub on_packet {ℓ} :
    {A : Type ℓ}
    → (List ℕ → A)
    → (ClientSession → A → Outcome (ClientSession × List Effect))
    → Option (List ℕ) × ClientSession
    → Outcome (ClientSession × List Effect)
on_packet of_bytes handle (none, s) = returns (s, [])
on_packet of_bytes handle (some bytes, s) = handle s (of_bytes bytes)

unfoldable pub handler_pkt_cs_login : Handler
unfolding handle_login
handler_pkt_cs_login s =
    parse_packet s login_request.header.size >>= on_packet login_request_of_bytes handle_login

unfoldable pub handler_pkt_cs_chat : Handler
unfolding handle_chat
handler_pkt_cs_chat s =
    parse_packet s chat_broadcast_request.header.size
    >>= on_packet chat_broadcast_request_of_bytes handle_chat

unfoldable pub handler_pkt_cs_move : Handler
unfolding handle_move
handler_pkt_cs_move s =
    parse_packet s move_request.header.size >>= on_packet move_request_of_bytes handle_move

-- The table as `InitializeHandlers` and the `RegisterHandler`s leave it.
unfoldable pub handler_table : ℕ → Handler
handler_table type =
    if type == pkt_cs_login
    then handler_pkt_cs_login
    else if type == pkt_cs_chat
    then handler_pkt_cs_chat
    else if type == pkt_cs_move
    then handler_pkt_cs_move
    else default_handler

-- What one round of the loop of `OnRead` does with the session: it returns, or the loop goes on.
pub data Round : Type 0 where
  stops continues : ClientSession → List Effect → Round

abbrev pub go_on : ClientSession × List Effect → Outcome Round
go_on (s, effects) = returns (continues s effects)

abbrev pub on_header : ClientSession → PacketHeader → Outcome Round
on_header s header =
    if ltb (CircularBuffer.get_stored_size s.recv_buffer) (size_of_short header.size)
    then returns (stops s [])
    else if not (ltb_short header.type pkt_max) || not (ltb_short pkt_none header.type)
    then returns (stops (disconnect s) [])
    else (handler_table header.type s >>= go_on)

abbrev pub on_peek : ClientSession → Option (List ℕ) → Outcome Round
on_peek s none = returns (stops s [])
on_peek s (some bytes) = on_header s (header_of_bytes bytes)

unfoldable pub read_round : ClientSession → Outcome Round
read_round s = CircularBuffer.peek s.recv_buffer 4 >>= on_peek s

abbrev pub prepend :
    List Effect → Outcome (ClientSession × List Effect) → Outcome (ClientSession × List Effect)
prepend effects outcome = outcome >>= λ (s, later). returns (s, effects ++ later)

-- `while (true)`, for at most `fuel` rounds; `none` says that the loop has not returned by then.
unfoldable pub read_loop : ℕ → ClientSession → Option (Outcome (ClientSession × List Effect))
read_loop zero s = none
read_loop (suc fuel) s = elim (read_round s) [
  | crashes ↦ some crashes
  | returns (stops s' effects) ↦ some (returns (s', effects))
  | returns (continues s' effects) ↦ elim (read_loop fuel s') [
    | none ↦ none
    | some outcome ↦ some (prepend effects outcome)
  ]
]

unfoldable pub on_read : ℕ → ClientSession → ℕ → Option (Outcome (ClientSession × List Effect))
on_read fuel s len =
    read_loop fuel (record s { recv_buffer = CircularBuffer.commit s.recv_buffer len })

-- What `RecvCompletion` does after `OnRead`.
abbrev pub receive_again : ClientSession × List Effect → Outcome (ClientSession × List Effect)
receive_again (t, effects) =
    let (ok, u, started) = post_recv t in
    if ok then returns (u, effects ++ started) else returns (disconnect u, effects ++ started)

-- The bytes transferred stand at `p` of the receive buffer's block, where the receive was started.
unfoldable pub recv_completion :
    ℕ → ClientSession → Bool → ℕ → List ℕ → Option (Outcome (ClientSession × List Effect))
recv_completion fuel s failed p transferred =
    let filled = record (s.recv_buffer) {
      buffer = write_bytes s.recv_buffer.buffer p transferred;
    } in
    let s' = dec_ref_count (record s { recv_buffer = filled }) in
    if not s'.connected
    then some (returns (s', []))
    else if failed || length transferred == 0
    then some (returns (disconnect s', []))
    else elim (on_read fuel s' (length transferred)) [
      | none ↦ none
      | some outcome ↦ some (outcome >>= receive_again)
    ]

unfoldable pub send_completion : ClientSession → Bool → ℕ → Outcome ClientSession
send_completion s failed transferred =
    let s' = dec_ref_count s in
    if not s'.connected
    then returns s'
    else if failed || transferred == 0
    then returns (disconnect s')
    else on_write_complete s' transferred
