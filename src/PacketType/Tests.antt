-- ===== src/PacketType/Tests.antt =====
-- Requests and results at concrete fields.
use easy_game_server.Prelude.{refl, arith, replicate}
use easy_game_server.PacketType.{
  LoginRequest, login_request, login_request_bytes, login_request_of_bytes, LoginResult,
  login_result, login_result_bytes, login_result_of_bytes, ChatBroadcastRequest,
  chat_broadcast_request, chat_broadcast_request_bytes, chat_broadcast_request_of_bytes,
  ChatBroadcastResult, chat_broadcast_result, chat_broadcast_result_bytes,
  chat_broadcast_result_of_bytes, MoveRequest, move_request, move_request_bytes,
  move_request_of_bytes, MoveBroadcastResult, move_broadcast_result, move_broadcast_result_bytes,
  move_broadcast_result_of_bytes,
}
use easy_game_server.PacketType.RoundTrip.{RoundTrips, packets-RoundTrips}

abbrev login_seven : LoginRequest
login_seven = record login_request { player_id = 7 }

abbrev chat_seven : ChatBroadcastRequest
chat_seven = record chat_broadcast_request { player_id = 7; chat = replicate 256 65 }

abbrev move_seven : MoveRequest
move_seven = record move_request { player_id = 7; pos_x = 1065353216; pos_y = 3212836864 }

abbrev login_ok : LoginResult
login_ok = record login_result { player_id = 7; pos_x = 1065353216; name = replicate 30 65 }

abbrev chat_heard : ChatBroadcastResult
chat_heard = record chat_broadcast_result {
  player_id = 7;
  name = replicate 30 65;
  chat = replicate 256 66;
}

abbrev move_seen : MoveBroadcastResult
move_seen = record move_broadcast_result { player_id = 7; pos_x = 1065353216; pos_y = 3212836864 }

packets-RoundTrips_example :
    RoundTrips login_request_bytes login_request_of_bytes 8 login_seven
    × RoundTrips chat_broadcast_request_bytes chat_broadcast_request_of_bytes 264 chat_seven
    × RoundTrips move_request_bytes move_request_of_bytes 16 move_seven
    × RoundTrips login_result_bytes login_result_of_bytes 46 login_ok
    × RoundTrips chat_broadcast_result_bytes chat_broadcast_result_of_bytes 294 chat_heard
    × RoundTrips move_broadcast_result_bytes move_broadcast_result_of_bytes 16 move_seen
packets-RoundTrips_example =
    packets-RoundTrips login_seven chat_seven move_seven login_ok chat_heard move_seen (omega arith)
      (omega arith, omega arith, refl) (omega arith)
      (omega arith, omega arith, omega arith, omega arith, refl)
      (omega arith, omega arith, refl, refl) (omega arith)
