-- ===== src/TcpClient.antt =====
-- Cocos2dxGameClient/Classes/TcpClient.h and TcpClient.cpp: the game client's connection, its requests,
-- and the thread that takes the server's packets out of the receive buffer. `debug` says whether the
-- build is one in which `assert` looks at its condition.
pub mod Sending
pub mod Requests
pub mod Results
pub mod Receiving
pub mod Ending
pub mod Pieces
pub mod Network
pub mod Starting
pub mod Conversation
mod Tests
use easy_game_server.Prelude.{
  ℕ, zero, suc, ◌+◌, ◌-◌, ◌%◌, ◌^◌, ◌<◌, ltb, ◌==◌, if◌then◌else◌, Bool, true, false, not, ◌&&◌,
  ◌||◌, Option, none, some, List, [], ◌∷◌, ◌++◌, length, region, write_bytes, Outcome, returns,
  crashes, ◌>>=◌, ◌>>◌, assert, string,
}
use easy_game_server.CircularBuffer
use easy_game_server.CircularBuffer.{CircularBuffer}
use easy_game_server.PacketType.{
  PacketHeader, header_of_bytes, pkt_sc_login, pkt_sc_chat, pkt_sc_move, minus_one, LoginRequest,
  login_request, login_request_bytes, ChatBroadcastRequest, chat_broadcast_request,
  chat_broadcast_request_bytes, MoveRequest, move_request, move_request_bytes, LoginResult,
  login_result, login_result_of_bytes, ChatBroadcastResult, chat_broadcast_result,
  chat_broadcast_result_of_bytes, MoveBroadcastResult, move_broadcast_result,
  move_broadcast_result_of_bytes,
}
use easy_game_server.PacketType.Words.{size_of_short}

abbrev pub buf_size : ℕ
buf_size = 32768

-- `m_sock`: `takes k n` is what the k-th call of `send` returns when it is offered `n` bytes, `none` for
-- `SOCKET_ERROR`. `sent` are the bytes that it has taken.
pub record Connection : Type 0 where
  pub takes : ℕ → ℕ → Option ℕ
  pub calls : ℕ
  pub sent : List ℕ

pub record TcpClient : Type 0 where
  pub sock : Connection
  pub recv_buffer : CircularBuffer
  pub login_id : ℕ

-- What the network thread has the thread of the scene do (`HelloWorld`).
pub data SceneCall : Type 0 where
  chat_draw : List ℕ → List ℕ → SceneCall
  update_me : ℕ → ℕ → SceneCall
  update_peer : ℕ → ℕ → ℕ → SceneCall

unfoldable pub init : Connection → List ℕ → TcpClient
init sock block = record {
  sock = sock;
  recv_buffer = CircularBuffer.init block;
  login_id = minus_one;
}

abbrev pub called : Connection → List ℕ → Connection
called c bytes = record c { calls = suc c.calls; sent = c.sent ++ bytes }

-- The loop of `send`, for at most `fuel` rounds.
unfoldable pub send_loop : ℕ → Connection → List ℕ → ℕ → ℕ → Option (Bool × Connection)
send_loop zero c bytes count len = none
send_loop (suc fuel) c bytes count len = elim (ltb count len) [
  | false ↦ some (true, c)
  | true ↦ elim (c.takes c.calls len) [
    | none ↦ some (false, called c [])
    | some n ↦ send_loop fuel (called c (region bytes count n)) bytes (count + n) (len - n)
  ]
]

unfoldable pub send : ℕ → Connection → List ℕ → Option (Bool × Connection)
unfolding send_loop
send fuel c bytes = send_loop fuel c bytes 0 (length bytes)

-- `int`s as bit patterns.
abbrev pub is_positive : ℕ → Bool
is_positive n = ltb 0 n && ltb n (2 ^ 31)

abbrev pub is_negative : ℕ → Bool
is_negative n = not (ltb n (2 ^ 31))

-- The result of `send` is not looked at.
abbrev pub sends : ℕ → TcpClient → List ℕ → Option TcpClient
sends fuel c bytes = elim (send fuel c.sock bytes) [
  | none ↦ none
  | some result ↦ some (record c { sock = result.1 })
]

-- `random` is the number that `rand` gives.
unfoldable pub login_request_sent : ℕ → ℕ → TcpClient → Option TcpClient
unfolding send
login_request_sent fuel random c =
    if is_positive c.login_id
    then some c
    else sends fuel c
        (login_request_bytes (record login_request { player_id = 1000 + random % 101 }))

-- `chat` ends at its 0; `memcpy` of more bytes than `mChat` has writes behind the packet.
unfoldable pub chat_request_sent : ℕ → List ℕ → TcpClient → Outcome (Option TcpClient)
unfolding send
chat_request_sent fuel chat c =
    if is_negative c.login_id
    then returns (some c)
    else (string chat >>= λ text.
        assert (not (ltb 256 (length text)))
        >> returns (
            sends fuel c (
              chat_broadcast_request_bytes (record chat_broadcast_request {
                player_id = c.login_id;
                chat = write_bytes chat_broadcast_request.chat 0 text;
              }))))

unfoldable pub move_request_sent : ℕ → ℕ → ℕ → TcpClient → Option TcpClient
unfolding send
move_request_sent fuel x y c =
    if is_negative c.login_id
    then some c
    else sends fuel c
        (move_request_bytes (record move_request { player_id = c.login_id; pos_x = x; pos_y = y }))

-- `assert(e)`, which in a Release build, with `NDEBUG`, looks at nothing.
abbrev checks : Bool → Bool → Outcome (Unit {0})
checks debug e = assert (e || not debug)

-- `recvData` after a `Read`; one that fails leaves it as constructed, with the player id -1.
abbrev read_into {ℓ} : {A : Type ℓ} → A → (List ℕ → A) → Option (List ℕ) → A
read_into packet of_bytes none = packet
read_into packet of_bytes (some bytes) = of_bytes bytes

abbrev has_read : Option (List ℕ) → Bool
has_read none = false
has_read (some bytes) = true

abbrev read_packet {ℓ} :
    {A : Type ℓ} → Bool → TcpClient → A → ℕ → (List ℕ → A) → (A → ℕ) → Outcome (A × TcpClient)
read_packet debug c packet size of_bytes id =
    CircularBuffer.read c.recv_buffer size >>= λ (out, buffer).
    let p = read_into packet of_bytes out in
    checks debug (has_read out && not (id p == minus_one))
    >> returns (p, record c { recv_buffer = buffer })

-- What is done with a packet. `mName` without a 0 reads on into `mChat`.
unfoldable pub login_received : TcpClient → LoginResult → TcpClient × List SceneCall
login_received c p = (record c { login_id = p.player_id }, [])

unfoldable pub chat_received :
    TcpClient → ChatBroadcastResult → Outcome (TcpClient × List SceneCall)
chat_received c p = string (p.name ++ p.chat) >>= λ name.
    string p.chat >>= λ chat. returns (c, chat_draw name chat ∷ [])

unfoldable pub move_received : TcpClient → MoveBroadcastResult → TcpClient × List SceneCall
move_received c p =
    if p.player_id == c.login_id
    then (c, update_me p.pos_x p.pos_y ∷ [])
    else (c, update_peer p.player_id p.pos_x p.pos_y ∷ [])

-- The `switch` on the packet's type, in a Debug build or not.
unfoldable pub dispatch : Bool → TcpClient → ℕ → Outcome (TcpClient × List SceneCall)
unfolding login_received chat_received move_received
dispatch debug c type =
    if type == pkt_sc_login
    then (read_packet debug c login_result login_result.header.size login_result_of_bytes
          (λ p. p.player_id)
        >>= λ (p, c'). returns (login_received c' p))
    else if type == pkt_sc_chat
    then (read_packet debug c chat_broadcast_result chat_broadcast_result.header.size
          chat_broadcast_result_of_bytes (λ p. p.player_id)
        >>= λ (p, c'). chat_received c' p)
    else if type == pkt_sc_move
    then (read_packet debug c move_broadcast_result move_broadcast_result.header.size
          move_broadcast_result_of_bytes (λ p. p.player_id)
        >>= λ (p, c'). returns (move_received c' p))
    else (checks debug false >> returns (c, []))

-- What one round of the loop of `processPacket` does: the loop ends, or it goes on.
pub data Round : Type 0 where
  ends : Round
  continues : TcpClient → List SceneCall → Round

abbrev on_header : Bool → TcpClient → PacketHeader → Outcome Round
on_header debug c header =
    if ltb (CircularBuffer.get_stored_size c.recv_buffer) (size_of_short header.size)
    then returns ends
    else (dispatch debug c header.type >>= λ (c', calls). returns (continues c' calls))

unfoldable pub packet_round : Bool → TcpClient → Outcome Round
packet_round debug c = CircularBuffer.peek c.recv_buffer 4 >>= λ out. elim out [
  | none ↦ returns ends
  | some bytes ↦ on_header debug c (header_of_bytes bytes)
]

abbrev pub prepend :
    List SceneCall → Outcome (TcpClient × List SceneCall) → Outcome (TcpClient × List SceneCall)
prepend calls outcome = outcome >>= λ (c, later). returns (c, calls ++ later)

-- The loop, for at most `fuel` rounds.
unfoldable pub process_packet : Bool → ℕ → TcpClient → Option (Outcome (TcpClient × List SceneCall))
process_packet debug zero c = none
process_packet debug (suc fuel) c = elim (packet_round debug c) [
  | crashes ↦ some crashes
  | returns ends ↦ some (returns (c, []))
  | returns (continues c' calls) ↦ elim (process_packet debug fuel c') [
    | none ↦ none
    | some outcome ↦ some (prepend calls outcome)
  ]
]

-- One round of `networkThread` in which bytes arrive. Bytes for which there is no room fail the
-- assertion; without it they are lost.
unfoldable pub receive :
    Bool → ℕ → TcpClient → List ℕ → Option (Outcome (TcpClient × List SceneCall))
unfolding process_packet
receive debug fuel c bytes =
    let (ok, buffer) = CircularBuffer.write c.recv_buffer bytes in
    if not ok && debug
    then some crashes
    else process_packet debug fuel (record c { recv_buffer = buffer })

-- The loop of `networkThread` over what `recv` gives: bytes, or none when it returns less than one.
unfoldable pub network_thread :
    Bool → ℕ → TcpClient → List (List ℕ) → Option (Outcome (TcpClient × List SceneCall))
unfolding receive
network_thread debug fuel c [] = some (returns (c, []))
network_thread debug fuel c ([] ∷ later) = network_thread debug fuel c later
network_thread debug fuel c ((byte ∷ bytes) ∷ later) = elim (receive debug fuel c (byte ∷ bytes)) [
  | none ↦ none
  | some crashes ↦ some crashes
  | some (returns (c', calls)) ↦ elim (network_thread debug fuel c' later) [
    | none ↦ none
    | some outcome ↦ some (prepend calls outcome)
  ]
]
