-- ===== src/TcpClient/Requests.antt =====
-- The client's requests, as the server reads them.
use easy_game_server.Prelude.{
  ℕ, suc, ◌+◌, ◌%◌, ◌^◌, ◌≤◌, ◌<◌, ◌≡◌, refl, List, ◌++◌, length, take, arith, returns, false,
  Option, none, some, find_nul, write_bytes, length-write_bytes, take_all, replicate,
}
use easy_game_server.PacketType.{login_request, chat_broadcast_request, move_request}
use easy_game_server.PacketHandling.Requests.{Request, login, chat, move, request_bytes, IsRequest}
use easy_game_server.PacketHandling.Framing.{length-request_bytes}
use easy_game_server.TcpClient.{
  Connection, TcpClient, called, send, send_loop, sends, is_positive, is_negative,
  login_request_sent, chat_request_sent, move_request_sent,
}

-- A socket that takes all that it is offered.
abbrev pub TakesAll : Connection → Type 0
TakesAll c = (k m : ℕ) → c.takes k m ≡ some m

-- The client has sent this request and nothing else.
abbrev pub Sends : TcpClient → Request → Option TcpClient → Type 0
Sends c r none = ⊥
Sends c r (some c') = IsRequest r × (c'.sock.sent ≡ c.sock.sent ++ request_bytes r)

sends_all :
    (fuel : ℕ) (c : TcpClient) (bytes : List ℕ)
    → TakesAll c.sock
    → 0 < length bytes
    → sends (suc (suc fuel)) c bytes ≡ some (record c { sock = called c.sock bytes })
unfolding send send_loop
sends_all fuel c bytes t h =
    ground (arith, h, t c.sock.calls (length bytes), take_all (length bytes) bytes)

-- A client that is not logged in asks for a player with an id from 1000 to 1100.
pub login_request_sent_lem :
    (fuel random : ℕ) (c : TcpClient)
    → TakesAll c.sock
    → is_positive c.login_id ≡ false
    → Sends c
        (login (record login_request { player_id = 1000 + random % 101 }))
        (login_request_sent (suc (suc fuel)) random c)
unfolding login_request_sent
login_request_sent_lem fuel random c t out =
    let p = record login_request { player_id = 1000 + random % 101 } in
    let h : IsRequest (login p) = omega arith in
    rw out (
      rw
        (sends_all fuel c (request_bytes (login p)) t
          (omega (arith, length-request_bytes (login p) h)))
        (h, refl))

pub move-IsRequest :
    (id x y : ℕ)
    → is_negative id ≡ false
    → x < 2 ^ 32
    → y < 2 ^ 32
    → IsRequest (move (record move_request { player_id = id; pos_x = x; pos_y = y }))
move-IsRequest id x y logged fx fy = ground (arith, logged, fx, fy)

pub chat-IsRequest :
    (id : ℕ) (text : List ℕ)
    → is_negative id ≡ false
    → IsRequest (
        chat (record chat_broadcast_request {
          player_id = id;
          chat = write_bytes (replicate 256 0) 0 text;
        }))
chat-IsRequest id text logged = (
  (
    record { size_in = omega arith; type_in = omega arith },
    ground (arith, logged),
    length-write_bytes (replicate 256 0) 0 text,
  ),
  (refl, refl),
)

pub move_request_sent-eq :
    (fuel x y : ℕ) (c : TcpClient)
    → TakesAll c.sock
    → is_negative c.login_id ≡ false
    → x < 2 ^ 32
    → y < 2 ^ 32
    → let p = move (record move_request { player_id = c.login_id; pos_x = x; pos_y = y }) in
      move_request_sent (suc (suc fuel)) x y c
      ≡ some (record c { sock = called c.sock (request_bytes p) })
unfolding move_request_sent
move_request_sent-eq fuel x y c t logged fx fy =
    let p = move (record move_request { player_id = c.login_id; pos_x = x; pos_y = y }) in
    let h = move-IsRequest c.login_id x y logged fx fy in
    rw logged (sends_all fuel c (request_bytes p) t (omega (arith, length-request_bytes p h)))

pub chat_request_sent-eq :
    (fuel n : ℕ) (text : List ℕ) (c : TcpClient)
    → TakesAll c.sock
    → is_negative c.login_id ≡ false
    → find_nul text ≡ some n
    → length (take n text) ≤ 256
    → let p = chat (record chat_broadcast_request {
      player_id = c.login_id;
      chat = write_bytes (replicate 256 0) 0 (take n text);
    }) in
      chat_request_sent (suc (suc fuel)) text c
      ≡ returns (some (record c { sock = called c.sock (request_bytes p) }))
unfolding chat_request_sent
chat_request_sent-eq fuel n text c t logged nul short =
    let p = chat (record chat_broadcast_request {
      player_id = c.login_id;
      chat = write_bytes (replicate 256 0) 0 (take n text);
    }) in
    let h = chat-IsRequest c.login_id (take n text) logged in
    ground (
      arith,
      logged,
      nul,
      short,
      sends_all fuel c (request_bytes p) t (omega (arith, length-request_bytes p h)),
    )
