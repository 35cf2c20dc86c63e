-- ===== src/Journey/Tests.antt =====
-- Player 7 moves and says hi, and player 8's session is in the client list.
use easy_game_server.Prelude.{
  Bool, ℕ, suc, ◌≡◌, ◌≢◌, refl, true, none, some, List, [], ◌∷◌, ◌++◌, replicate, arith, returns,
  Returns,
}
use easy_game_server.PacketType.{
  MoveRequest, move_request, move_broadcast_result_bytes, ChatBroadcastRequest,
  chat_broadcast_request, chat_broadcast_result_bytes,
}
use easy_game_server.CircularBuffer
use easy_game_server.CircularBuffer.{CircularBuffer}
use easy_game_server.CircularBuffer.Invariant.{IsValid, contents}
use easy_game_server.ClientSession.{ClientSession, broadcasts}
use easy_game_server.PacketHandling.{handle_move, handle_chat}
use easy_game_server.PacketHandling.Chat.{moved_bytes}
use easy_game_server.ClientManager.{ClientManager, broadcast_packet}
use easy_game_server.ClientManager.Heap.{lookup}
use easy_game_server.ClientManager.Creating.{IsWellFormed}
use easy_game_server.TcpClient.{TcpClient, SceneCall, chat_draw, process_packet}
use easy_game_server.TcpClient.Results.{with_recv_buffer}
use easy_game_server.HelloWorld.{HelloWorld}
use easy_game_server.HelloWorld.Showing.{shown, performs}
use easy_game_server.Journey.Chat
use easy_game_server.Journey.Chat.{said_bytes, chat_travels}
use easy_game_server.Journey.{HasRoom, move_travels}

abbrev step_aside : MoveRequest
step_aside = record move_request { player_id = 7; pos_x = 3; pos_y = 4 }

abbrev block : CircularBuffer
block = record {
  buffer = replicate 320 0;
  buffer_end = 320;
  a_region_pointer = 0;
  a_region_size = 0;
  b_region_pointer = none;
  b_region_size = 0;
}

abbrev session : ℕ → ℕ → ClientSession
session handle player = record {
  ref_count = 0;
  pos_x = 0;
  pos_y = 0;
  player_name = replicate 30 0;
  connected = true;
  logon = true;
  socket = record { handle = handle; answers = λ _. true; calls = 0 };
  player_id = player;
  send_buffer = block;
  recv_buffer = block;
}

abbrev manager : ClientManager
manager = record {
  sessions = some (session 9 7) ∷ some (session 5 8) ∷ [];
  client_list = record { sock = 5; session = 1 } ∷ record { sock = 9; session = 0 } ∷ [];
  last_gc_tick = 0;
}

block-IsValid : IsValid block
block-IsValid = omega arith

manager-IsWellFormed : IsWellFormed manager
manager-IsWellFormed = (
  refl,
  (omega arith, tt),
  (
    session 5 8,
    refl,
    refl,
    record { named = refl; sends = block-IsValid; receives = block-IsValid },
  ),
  (
    refl,
    tt,
    (
      session 9 7,
      refl,
      refl,
      record { named = refl; sends = block-IsValid; receives = block-IsValid },
    ),
    tt,
  ),
)

session-HasRoom : (handle player : ℕ) → HasRoom (session handle player) step_aside
unfolding CircularBuffer.get_free_space_size move_broadcast_result_bytes
session-HasRoom handle player = omega arith

move_travels_example :
    let packet = moved_bytes step_aside in
    ((s : ClientSession) × (handle_move (session 9 7) step_aside
        ≡ returns (s, broadcasts packet ∷ [])))
    × Returns (broadcast_packet manager 0 packet) (λ after.
      (t : ClientSession) × (lookup after.sessions 1 ≡ some t)
      × (contents t.send_buffer ≡ contents block ++ packet))
    × ((b : CircularBuffer) (c : TcpClient) (h : HelloWorld) (debug : Bool) (fuel : ℕ)
        → 7 ≢ c.login_id
        → IsValid b
        → contents b ≡ packet
        → (c' : TcpClient) × (calls : List SceneCall) × (process_packet debug
              (suc (suc fuel))
              (with_recv_buffer b c)
            ≡ some (returns (c', calls)))
          × (shown (performs h calls).peer_map 7 ≡ some (3, 4)))
move_travels_example =
    move_travels step_aside (session 9 7) (session 5 8) manager 0 1 (omega arith) (omega arith)
      (omega arith) (omega arith) refl refl block-IsValid (session-HasRoom 9 7) manager-IsWellFormed
      refl (omega arith) refl refl block-IsValid (session-HasRoom 5 8)

abbrev greeting : ChatBroadcastRequest
greeting = record chat_broadcast_request { player_id = 7; chat = 104 ∷ 105 ∷ replicate 254 0 }

session-HasRoom_chat :
    (handle player : ℕ)
    → Chat.HasRoom (session handle player) (said_bytes greeting (replicate 30 0) 0 2)
unfolding CircularBuffer.get_free_space_size chat_broadcast_result_bytes
session-HasRoom_chat handle player = omega arith

chat_travels_example :
    let packet = said_bytes greeting (replicate 30 0) 0 2 in
    ((s : ClientSession) × (handle_chat (session 9 7) greeting
        ≡ returns (s, broadcasts packet ∷ [])))
    × Returns (broadcast_packet manager 0 packet) (λ after.
      (t : ClientSession) × (lookup after.sessions 1 ≡ some t)
      × (contents t.send_buffer ≡ contents block ++ packet))
    × ((b : CircularBuffer) (c : TcpClient) (debug : Bool) (fuel : ℕ)
        → IsValid b
        → contents b ≡ packet
        → (c' : TcpClient) × (process_packet debug (suc (suc fuel)) (with_recv_buffer b c)
            ≡ some (returns (c', chat_draw [] (104 ∷ 105 ∷ []) ∷ []))))
chat_travels_example =
    chat_travels greeting (session 9 7) (session 5 8) manager 0 2 0 1 (omega arith) (omega arith)
      refl refl refl refl block-IsValid (session-HasRoom_chat 9 7) manager-IsWellFormed refl
      (omega arith) refl refl block-IsValid (session-HasRoom_chat 5 8)
