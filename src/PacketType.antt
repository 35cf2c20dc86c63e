-- ===== src/PacketType.antt =====
-- PacketType.h: the packets between server and clients, as structs and as bytes. The structs are
-- packed, and the processors store the low byte first.
--
-- A `short`, `int` or `float` is its bit pattern; a `char` array is the list of its bytes.
pub mod Words
pub mod RoundTrip
mod Tests
use easy_game_server.Prelude.{ℕ, ◌-◌, ◌^◌, ◌++◌, List, replicate, region}
use Words.{le_bytes, of_le}

abbrev pub max_chat_len : ℕ
max_chat_len = 256

abbrev pub max_name_len : ℕ
max_name_len = 30

abbrev pub max_comment_len : ℕ
max_comment_len = 40

abbrev pub pkt_none : ℕ
pkt_none = 0

abbrev pub pkt_cs_login : ℕ
pkt_cs_login = 1

abbrev pub pkt_sc_login : ℕ
pkt_sc_login = 2

abbrev pub pkt_cs_chat : ℕ
pkt_cs_chat = 11

abbrev pub pkt_sc_chat : ℕ
pkt_sc_chat = 12

abbrev pub pkt_cs_move : ℕ
pkt_cs_move = 21

abbrev pub pkt_sc_move : ℕ
pkt_sc_move = 22

abbrev pub pkt_max : ℕ
pkt_max = 1024

-- The `int` -1.
abbrev pub minus_one : ℕ
minus_one = 2 ^ 32 - 1

pub record PacketHeader : Type 0 where
  pub size : ℕ
  pub type : ℕ

pub record LoginRequest : Type 0 where
  pub header : PacketHeader
  pub player_id : ℕ

pub record LoginResult : Type 0 where
  pub header : PacketHeader
  pub player_id : ℕ
  pub pos_x : ℕ
  pub pos_y : ℕ
  pub name : List ℕ

pub record ChatBroadcastRequest : Type 0 where
  pub header : PacketHeader
  pub player_id : ℕ
  pub chat : List ℕ

pub record ChatBroadcastResult : Type 0 where
  pub header : PacketHeader
  pub player_id : ℕ
  pub name : List ℕ
  pub chat : List ℕ

pub record MoveRequest : Type 0 where
  pub header : PacketHeader
  pub player_id : ℕ
  pub pos_x : ℕ
  pub pos_y : ℕ

pub record MoveBroadcastResult : Type 0 where
  pub header : PacketHeader
  pub player_id : ℕ
  pub pos_x : ℕ
  pub pos_y : ℕ

-- The structs as their constructors leave them; the size is that of the packed struct.
abbrev pub login_request : LoginRequest
login_request = record { header = record { size = 8; type = pkt_cs_login }; player_id = minus_one }

abbrev pub login_result : LoginResult
login_result = record {
  header = record { size = 46; type = pkt_sc_login };
  player_id = minus_one;
  pos_x = 0;
  pos_y = 0;
  name = replicate max_name_len 0;
}

abbrev pub chat_broadcast_request : ChatBroadcastRequest
chat_broadcast_request = record {
  header = record { size = 264; type = pkt_cs_chat };
  player_id = minus_one;
  chat = replicate max_chat_len 0;
}

abbrev pub chat_broadcast_result : ChatBroadcastResult
chat_broadcast_result = record {
  header = record { size = 294; type = pkt_sc_chat };
  player_id = minus_one;
  name = replicate max_name_len 0;
  chat = replicate max_chat_len 0;
}

abbrev pub move_request : MoveRequest
move_request = record {
  header = record { size = 16; type = pkt_cs_move };
  player_id = minus_one;
  pos_x = 0;
  pos_y = 0;
}

abbrev pub move_broadcast_result : MoveBroadcastResult
move_broadcast_result = record {
  header = record { size = 16; type = pkt_sc_move };
  player_id = minus_one;
  pos_x = 0;
  pos_y = 0;
}

-- The bytes of a struct in memory.
abbrev header_bytes : PacketHeader → List ℕ
header_bytes p = le_bytes 2 p.size ++ le_bytes 2 p.type

unfoldable pub login_request_bytes : LoginRequest → List ℕ
login_request_bytes p = header_bytes p.header ++ le_bytes 4 p.player_id

unfoldable pub login_result_bytes : LoginResult → List ℕ
login_result_bytes p =
    header_bytes p.header
    ++ (le_bytes 4 p.player_id ++ (le_bytes 4 p.pos_x ++ (le_bytes 4 p.pos_y ++ p.name)))

unfoldable pub chat_broadcast_request_bytes : ChatBroadcastRequest → List ℕ
chat_broadcast_request_bytes p = header_bytes p.header ++ (le_bytes 4 p.player_id ++ p.chat)

unfoldable pub chat_broadcast_result_bytes : ChatBroadcastResult → List ℕ
chat_broadcast_result_bytes p =
    header_bytes p.header ++ (le_bytes 4 p.player_id ++ (p.name ++ p.chat))

unfoldable pub move_request_bytes : MoveRequest → List ℕ
move_request_bytes p =
    header_bytes p.header ++ (le_bytes 4 p.player_id ++ (le_bytes 4 p.pos_x ++ le_bytes 4 p.pos_y))

unfoldable pub move_broadcast_result_bytes : MoveBroadcastResult → List ℕ
move_broadcast_result_bytes p =
    header_bytes p.header ++ (le_bytes 4 p.player_id ++ (le_bytes 4 p.pos_x ++ le_bytes 4 p.pos_y))

-- The struct that bytes copied over it make.
abbrev pub header_of_bytes : List ℕ → PacketHeader
header_of_bytes bytes = record { size = of_le (region bytes 0 2); type = of_le (region bytes 2 2) }

unfoldable pub login_request_of_bytes : List ℕ → LoginRequest
login_request_of_bytes bytes = record {
  header = header_of_bytes bytes;
  player_id = of_le (region bytes 4 4);
}

unfoldable pub login_result_of_bytes : List ℕ → LoginResult
login_result_of_bytes bytes = record {
  header = header_of_bytes bytes;
  player_id = of_le (region bytes 4 4);
  pos_x = of_le (region bytes 8 4);
  pos_y = of_le (region bytes 12 4);
  name = region bytes 16 max_name_len;
}

unfoldable pub chat_broadcast_request_of_bytes : List ℕ → ChatBroadcastRequest
chat_broadcast_request_of_bytes bytes = record {
  header = header_of_bytes bytes;
  player_id = of_le (region bytes 4 4);
  chat = region bytes 8 max_chat_len;
}

unfoldable pub chat_broadcast_result_of_bytes : List ℕ → ChatBroadcastResult
chat_broadcast_result_of_bytes bytes = record {
  header = header_of_bytes bytes;
  player_id = of_le (region bytes 4 4);
  name = region bytes 8 max_name_len;
  chat = region bytes 38 max_chat_len;
}

unfoldable pub move_request_of_bytes : List ℕ → MoveRequest
move_request_of_bytes bytes = record {
  header = header_of_bytes bytes;
  player_id = of_le (region bytes 4 4);
  pos_x = of_le (region bytes 8 4);
  pos_y = of_le (region bytes 12 4);
}

unfoldable pub move_broadcast_result_of_bytes : List ℕ → MoveBroadcastResult
move_broadcast_result_of_bytes bytes = record {
  header = header_of_bytes bytes;
  player_id = of_le (region bytes 4 4);
  pos_x = of_le (region bytes 8 4);
  pos_y = of_le (region bytes 12 4);
}
