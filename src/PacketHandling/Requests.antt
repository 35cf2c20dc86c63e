-- ===== src/PacketHandling/Requests.antt =====
-- The requests of a client, as the bytes that it sends and as what the server does with each.
use easy_game_server.Prelude.{
  ℕ, ◌≡◌, refl, List, [], ◌∷◌, ◌++◌, take, arith, Outcome, returns, crashes, ◌>>=◌,
}
use easy_game_server.PacketType.{
  PacketHeader, LoginRequest, ChatBroadcastRequest, MoveRequest, login_request,
  chat_broadcast_request, move_request, login_request_bytes, chat_broadcast_request_bytes,
  move_request_bytes, header_of_bytes,
}
use easy_game_server.PacketType.Words.{of_le-le_bytes_two}
use easy_game_server.PacketType.RoundTrip.{
  HasHeader, IsLoginRequest, IsChatBroadcastRequest, IsMoveRequest,
}
use easy_game_server.CircularBuffer.{CircularBuffer}
use easy_game_server.ClientSession.{ClientSession, Effect, disconnect, send_request, broadcast}
use easy_game_server.PacketHandling.{handle_login, handle_chat, handle_move}

pub data Request : Type 0 where
  login : LoginRequest → Request
  chat : ChatBroadcastRequest → Request
  move : MoveRequest → Request

abbrev pub request_header : Request → PacketHeader
request_header (login p) = p.header
request_header (chat p) = p.header
request_header (move p) = p.header

abbrev pub request_bytes : Request → List ℕ
request_bytes (login p) = login_request_bytes p
request_bytes (chat p) = chat_broadcast_request_bytes p
request_bytes (move p) = move_request_bytes p

abbrev pub IsRequest : Request → Type 0
IsRequest (login p) = IsLoginRequest p × HasHeader p.header login_request.header
IsRequest (chat p) = IsChatBroadcastRequest p × HasHeader p.header chat_broadcast_request.header
IsRequest (move p) = IsMoveRequest p × HasHeader p.header move_request.header

abbrev pub handle : ClientSession → Request → Outcome (ClientSession × List Effect)
handle s (login p) = handle_login s p
handle s (chat p) = handle_chat s p
handle s (move p) = handle_move s p

-- Requests one after the other.
unfoldable pub process : ClientSession → List Request → Outcome (ClientSession × List Effect)
process s [] = returns (s, [])
process s (r ∷ rs) =
    handle s r >>= λ (t, effects). process t rs >>= λ (u, later). returns (u, effects ++ later)

abbrev pub with_recv_buffer : CircularBuffer → ClientSession → ClientSession
with_recv_buffer b s = record s { recv_buffer = b }

-- An outcome in which the receive buffer is another one.
abbrev pub receiving :
    CircularBuffer → Outcome (ClientSession × List Effect) → Outcome (ClientSession × List Effect)
receiving b (returns (s, effects)) = returns (with_recv_buffer b s, effects)
receiving b crashes = crashes

-- The header is what the first four bytes make.
pub request_header_lem :
    (r : Request) (rest : List ℕ)
    → IsRequest r
    → header_of_bytes (take 4 (request_bytes r ++ rest)) ≡ request_header r
unfolding login_request_bytes chat_broadcast_request_bytes move_request_bytes
request_header_lem (login p) rest h =
    ground (arith, h, of_le-le_bytes_two p.header.size, of_le-le_bytes_two p.header.type)
request_header_lem (chat p) rest h =
    ground (arith, h, of_le-le_bytes_two p.header.size, of_le-le_bytes_two p.header.type)
request_header_lem (move p) rest h =
    ground (arith, h, of_le-le_bytes_two p.header.size, of_le-le_bytes_two p.header.type)

-- The handlers do not look at the receive buffer.
module _ (b : CircularBuffer) where
  disconnect-recv :
      (s : ClientSession) → disconnect (with_recv_buffer b s) ≡ with_recv_buffer b (disconnect s)
  unfolding disconnect
  disconnect-recv s = ground arith

  pub handle-recv :
      (s : ClientSession) (r : Request) → handle (with_recv_buffer b s) r ≡ receiving b (handle s r)
  unfolding handle_login handle_chat handle_move broadcast send_request disconnect
  handle-recv s (login p) = refl
  handle-recv s (chat p) = ground arith
  handle-recv s (move p) = ground arith

  pub receiving-prepend :
      (effects : List Effect) (m : Outcome (ClientSession × List Effect))
      → receiving b (m >>= λ (u, later). returns (u, effects ++ later))
        ≡ (receiving b m >>= λ (u, later). returns (u, effects ++ later))
  receiving-prepend effects (returns (u, later)) = refl
  receiving-prepend effects crashes = refl
