-- ===== src/PacketType/RoundTrip.antt =====
-- Structs copied to bytes and back.
use easy_game_server.Prelude.{
  ◌≡◌, ℕ, ◌^◌, ◌<◌, ◌≡◌, List, length, arith, take_all, length-append, take-append_le,
  drop-append_add,
}
use easy_game_server.PacketType.{
  PacketHeader, LoginRequest, LoginResult, ChatBroadcastRequest, ChatBroadcastResult, MoveRequest,
  MoveBroadcastResult, login_request_bytes, login_result_bytes, chat_broadcast_request_bytes,
  chat_broadcast_result_bytes, move_request_bytes, move_broadcast_result_bytes,
  login_request_of_bytes, login_result_of_bytes, chat_broadcast_request_of_bytes,
  chat_broadcast_result_of_bytes, move_request_of_bytes, move_broadcast_result_of_bytes,
  max_name_len, max_chat_len, login_request, login_result, chat_broadcast_request,
  chat_broadcast_result, move_request, move_broadcast_result,
}
use easy_game_server.PacketType.Words.{of_le-le_bytes_two, of_le-le_bytes_four}

pub record IsHeader (h : PacketHeader) : Type 0 where
  pub size_in : h.size < 2 ^ 16
  pub type_in : h.type < 2 ^ 16

-- The size and type in the header are those of the struct's constructor.
abbrev pub HasHeader : PacketHeader → PacketHeader → Type 0
HasHeader h expected = (h.size ≡ expected.size) × (h.type ≡ expected.type)

-- A struct's fields fit.
abbrev pub IsLoginRequest : LoginRequest → Type 0
IsLoginRequest p = IsHeader p.header × (p.player_id < 2 ^ 32)

abbrev pub IsLoginResult : LoginResult → Type 0
IsLoginResult p =
    IsHeader p.header
    × (p.player_id < 2 ^ 32)
    × (p.pos_x < 2 ^ 32)
    × (p.pos_y < 2 ^ 32)
    × (length p.name ≡ max_name_len)

abbrev pub IsChatBroadcastRequest : ChatBroadcastRequest → Type 0
IsChatBroadcastRequest p =
    IsHeader p.header × (p.player_id < 2 ^ 32) × (length p.chat ≡ max_chat_len)

abbrev pub IsChatBroadcastResult : ChatBroadcastResult → Type 0
IsChatBroadcastResult p =
    IsHeader p.header
    × (p.player_id < 2 ^ 32)
    × (length p.name ≡ max_name_len)
    × (length p.chat ≡ max_chat_len)

abbrev pub IsMoveRequest : MoveRequest → Type 0
IsMoveRequest p =
    IsHeader p.header × (p.player_id < 2 ^ 32) × (p.pos_x < 2 ^ 32) × (p.pos_y < 2 ^ 32)

abbrev pub IsMoveBroadcastResult : MoveBroadcastResult → Type 0
IsMoveBroadcastResult p =
    IsHeader p.header × (p.player_id < 2 ^ 32) × (p.pos_x < 2 ^ 32) × (p.pos_y < 2 ^ 32)

-- What the bytes of a struct make, and how many they are.
abbrev pub RoundTrips : {A : Type 0} → (A → List ℕ) → (List ℕ → A) → ℕ → A → Type 0
RoundTrips to_bytes of_bytes size p = (of_bytes (to_bytes p) ≡ p) × (length (to_bytes p) ≡ size)

pub login_request-RoundTrips :
    (p : LoginRequest)
    → IsLoginRequest p
    → RoundTrips login_request_bytes login_request_of_bytes login_request.header.size p
unfolding login_request_bytes login_request_of_bytes
login_request-RoundTrips p h = ground (
  arith,
  h,
  of_le-le_bytes_two p.header.size,
  of_le-le_bytes_two p.header.type,
  of_le-le_bytes_four p.player_id,
)

pub move_request-RoundTrips :
    (p : MoveRequest)
    → IsMoveRequest p
    → RoundTrips move_request_bytes move_request_of_bytes move_request.header.size p
unfolding move_request_bytes move_request_of_bytes
move_request-RoundTrips p h = ground (
  arith,
  h,
  of_le-le_bytes_two p.header.size,
  of_le-le_bytes_two p.header.type,
  of_le-le_bytes_four p.player_id,
  of_le-le_bytes_four p.pos_x,
  of_le-le_bytes_four p.pos_y,
)

pub move_broadcast_result-RoundTrips :
    (p : MoveBroadcastResult)
    → IsMoveBroadcastResult p
    → RoundTrips move_broadcast_result_bytes move_broadcast_result_of_bytes
        move_broadcast_result.header.size p
unfolding move_broadcast_result_bytes move_broadcast_result_of_bytes
move_broadcast_result-RoundTrips p h = ground (
  arith,
  h,
  of_le-le_bytes_two p.header.size,
  of_le-le_bytes_two p.header.type,
  of_le-le_bytes_four p.player_id,
  of_le-le_bytes_four p.pos_x,
  of_le-le_bytes_four p.pos_y,
)

pub chat_broadcast_request-RoundTrips :
    (p : ChatBroadcastRequest)
    → IsChatBroadcastRequest p
    → RoundTrips chat_broadcast_request_bytes chat_broadcast_request_of_bytes
        chat_broadcast_request.header.size p
unfolding chat_broadcast_request_bytes chat_broadcast_request_of_bytes
chat_broadcast_request-RoundTrips p h = ground (
  arith,
  h,
  of_le-le_bytes_two p.header.size,
  of_le-le_bytes_two p.header.type,
  of_le-le_bytes_four p.player_id,
  take_all max_chat_len p.chat,
)

pub login_result-RoundTrips :
    (p : LoginResult)
    → IsLoginResult p
    → RoundTrips login_result_bytes login_result_of_bytes login_result.header.size p
unfolding login_result_bytes login_result_of_bytes
login_result-RoundTrips p h = ground (
  arith,
  h,
  of_le-le_bytes_two p.header.size,
  of_le-le_bytes_two p.header.type,
  of_le-le_bytes_four p.player_id,
  of_le-le_bytes_four p.pos_x,
  of_le-le_bytes_four p.pos_y,
  take_all max_name_len p.name,
)

pub chat_broadcast_result-RoundTrips :
    (p : ChatBroadcastResult)
    → IsChatBroadcastResult p
    → RoundTrips chat_broadcast_result_bytes chat_broadcast_result_of_bytes
        chat_broadcast_result.header.size p
unfolding chat_broadcast_result_bytes chat_broadcast_result_of_bytes
chat_broadcast_result-RoundTrips p h = ground (
  arith,
  h,
  of_le-le_bytes_two p.header.size,
  of_le-le_bytes_two p.header.type,
  of_le-le_bytes_four p.player_id,
  take-append_le max_name_len p.name p.chat,
  take_all max_name_len p.name,
  drop-append_add max_name_len 0 p.name p.chat,
  take_all max_chat_len p.chat,
  length-append p.name p.chat,
)

-- A request or a result whose fields fit comes out of its bytes as it was, and they are as many as its
-- constructor writes into `mSize`.
pub packets-RoundTrips :
    (login : LoginRequest) (chat : ChatBroadcastRequest) (move : MoveRequest) (logged : LoginResult)
    (heard : ChatBroadcastResult) (seen : MoveBroadcastResult)
    → IsLoginRequest login
    → IsChatBroadcastRequest chat
    → IsMoveRequest move
    → IsLoginResult logged
    → IsChatBroadcastResult heard
    → IsMoveBroadcastResult seen
    → RoundTrips login_request_bytes login_request_of_bytes login_request.header.size login
      × RoundTrips chat_broadcast_request_bytes chat_broadcast_request_of_bytes
          chat_broadcast_request.header.size chat
      × RoundTrips move_request_bytes move_request_of_bytes move_request.header.size move
      × RoundTrips login_result_bytes login_result_of_bytes login_result.header.size logged
      × RoundTrips chat_broadcast_result_bytes chat_broadcast_result_of_bytes
          chat_broadcast_result.header.size heard
      × RoundTrips move_broadcast_result_bytes move_broadcast_result_of_bytes
          move_broadcast_result.header.size seen
packets-RoundTrips login chat move logged heard seen h k l m n o = (
  login_request-RoundTrips login h,
  chat_broadcast_request-RoundTrips chat k,
  move_request-RoundTrips move l,
  login_result-RoundTrips logged m,
  chat_broadcast_result-RoundTrips heard n,
  move_broadcast_result-RoundTrips seen o,
)
