-- ===== src/TcpClient/Results.antt =====
-- The server's results, as the bytes that it sends and as what the client does with each.
use easy_game_server.Prelude.{
  ℕ, ◌≡◌, ◌≢◌, refl, List, [], ◌∷◌, ◌++◌, take, arith, Outcome, returns, crashes, ◌>>=◌,
}
use easy_game_server.PacketType.{
  PacketHeader, LoginResult, ChatBroadcastResult, MoveBroadcastResult, login_result,
  chat_broadcast_result, move_broadcast_result, login_result_bytes, chat_broadcast_result_bytes,
  move_broadcast_result_bytes, header_of_bytes, minus_one,
}
use easy_game_server.PacketType.Words.{of_le-le_bytes_two}
use easy_game_server.PacketType.RoundTrip.{
  HasHeader, IsLoginResult, IsChatBroadcastResult, IsMoveBroadcastResult,
}
use easy_game_server.CircularBuffer.{CircularBuffer}
use easy_game_server.TcpClient.{
  TcpClient, SceneCall, login_received, chat_received, move_received, prepend,
}

pub data Result : Type 0 where
  login : LoginResult → Result
  chat : ChatBroadcastResult → Result
  move : MoveBroadcastResult → Result

abbrev pub result_header : Result → PacketHeader
result_header (login p) = p.header
result_header (chat p) = p.header
result_header (move p) = p.header

abbrev pub result_bytes : Result → List ℕ
result_bytes (login p) = login_result_bytes p
result_bytes (chat p) = chat_broadcast_result_bytes p
result_bytes (move p) = move_broadcast_result_bytes p

-- A result as the server makes it: its fields fit, the header is the struct's, the player has an id.
abbrev pub IsResult : Result → Type 0
IsResult (login p) =
    IsLoginResult p × HasHeader p.header login_result.header × (p.player_id ≢ minus_one)
IsResult (chat p) =
    IsChatBroadcastResult p
    × HasHeader p.header chat_broadcast_result.header
    × (p.player_id ≢ minus_one)
IsResult (move p) =
    IsMoveBroadcastResult p
    × HasHeader p.header move_broadcast_result.header
    × (p.player_id ≢ minus_one)

abbrev pub handle : TcpClient → Result → Outcome (TcpClient × List SceneCall)
handle c (login p) = returns (login_received c p)
handle c (chat p) = chat_received c p
handle c (move p) = returns (move_received c p)

-- Results one after the other.
unfoldable pub process : TcpClient → List Result → Outcome (TcpClient × List SceneCall)
process c [] = returns (c, [])
process c (r ∷ rs) = handle c r >>= λ (d, calls). prepend calls (process d rs)

abbrev pub with_recv_buffer : CircularBuffer → TcpClient → TcpClient
with_recv_buffer b c = record c { recv_buffer = b }

-- An outcome in which the receive buffer is another one.
abbrev pub receiving :
    CircularBuffer → Outcome (TcpClient × List SceneCall) → Outcome (TcpClient × List SceneCall)
receiving b (returns (c, calls)) = returns (with_recv_buffer b c, calls)
receiving b crashes = crashes

-- The header is what the first four bytes make.
pub result_header_lem :
    (r : Result) (rest : List ℕ)
    → IsResult r
    → header_of_bytes (take 4 (result_bytes r ++ rest)) ≡ result_header r
unfolding login_result_bytes chat_broadcast_result_bytes move_broadcast_result_bytes
result_header_lem (login p) rest h =
    ground (arith, h, of_le-le_bytes_two p.header.size, of_le-le_bytes_two p.header.type)
result_header_lem (chat p) rest h =
    ground (arith, h, of_le-le_bytes_two p.header.size, of_le-le_bytes_two p.header.type)
result_header_lem (move p) rest h =
    ground (arith, h, of_le-le_bytes_two p.header.size, of_le-le_bytes_two p.header.type)

-- What is done with a result does not look at the receive buffer.
module _ (b : CircularBuffer) where
  pub handle-recv :
      (c : TcpClient) (r : Result) → handle (with_recv_buffer b c) r ≡ receiving b (handle c r)
  unfolding login_received chat_received move_received
  handle-recv c (login p) = refl
  handle-recv c (chat p) = ground arith
  handle-recv c (move p) = ground arith

  pub receiving-prepend :
      (calls : List SceneCall) (m : Outcome (TcpClient × List SceneCall))
      → receiving b (prepend calls m) ≡ prepend calls (receiving b m)
  receiving-prepend calls (returns (d, later)) = refl
  receiving-prepend calls crashes = refl
