-- ===== src/PacketHandling/Tests.antt =====
-- Receives that bring whole requests, part of one, and what stops the server.
use easy_game_server.Prelude.{
  false, ℕ, ◌≡◌, refl, arith, true, none, some, inl, List, [], ◌∷◌, replicate, Outcome, crashes,
}
use easy_game_server.PacketType.{
  LoginRequest, login_request, ChatBroadcastRequest, chat_broadcast_request, MoveRequest,
  move_request, login_request_bytes,
}
use easy_game_server.CircularBuffer
use easy_game_server.CircularBuffer.{CircularBuffer}
use easy_game_server.CircularBuffer.Invariant.{IsValid}
use easy_game_server.ClientSession.{ClientSession, Effect, Socket, init}
use easy_game_server.ClientSession.{dec_ref_count}
use easy_game_server.PacketHandling.Receiving.{Completes, recv_completion_lem}
use easy_game_server.PacketHandling.{recv_completion, on_read, handle_chat}
use easy_game_server.PacketHandling.Requests.{login, process, with_recv_buffer}
use easy_game_server.PacketHandling.Hanging.{IsHanging, on_read_hangs}
use easy_game_server.PacketHandling.Chat.{handle_chat_crashes}

abbrev kind : Socket
kind = record { handle = 3; answers = λ _. true; calls = 0 }

abbrev newcomer : ClientSession
newcomer = record (init kind (replicate 32 0) (replicate 32 0)) { connected = true; player_id = 7 }

abbrev login_seven : LoginRequest
login_seven = record login_request { player_id = 7 }

abbrev chat_seven : ChatBroadcastRequest
chat_seven = record chat_broadcast_request { player_id = 7; chat = replicate 256 65 }

abbrev move_seven : MoveRequest
move_seven = record move_request { player_id = 7; pos_x = 1065353216; pos_y = 3212836864 }

abbrev as_eight : ChatBroadcastRequest
as_eight = record chat_seven { player_id = 8 }

abbrev moves_eight : MoveRequest
moves_eight = record move_seven { player_id = 8 }

-- A login, a move, and the first bytes of the next packet.
abbrev received : CircularBuffer
received = record {
  buffer =
      8 ∷ 0 ∷ 1 ∷ 0 ∷ 7 ∷ 0 ∷ 0 ∷ 0 ∷ 16 ∷ 0 ∷ 21 ∷ 0 ∷ 7 ∷ 0 ∷ 0 ∷ 0 ∷ 0 ∷ 0 ∷ 128 ∷ 63 ∷ 0 ∷ 0
      ∷ 128 ∷ 191 ∷ 8 ∷ 0 ∷ 1 ∷ 0 ∷ 0 ∷ 0 ∷ 0 ∷ 0 ∷ [];
  buffer_end = 32;
  a_region_pointer = 0;
  a_region_size = 29;
  b_region_pointer = none;
  b_region_size = 0;
}

received-IsValid : IsValid received
received-IsValid = omega arith

-- The second half of a login and part of a move, behind the login's first half.
abbrev half : CircularBuffer
half = record received { a_region_size = 4 }

half-IsValid : IsValid half
half-IsValid = omega arith

abbrev transferred : List ℕ
transferred = 7 ∷ 0 ∷ 0 ∷ 0 ∷ 16 ∷ 0 ∷ []

recv_completion_lem_example :
    let posted = (CircularBuffer.get_free_space_size half).1 in
    (m : Outcome (ClientSession × List Effect)) × (recv_completion 2
        (with_recv_buffer posted newcomer)
        false
        (CircularBuffer.get_buffer posted)
        transferred
      ≡ some m)
    × Completes (16 ∷ 0 ∷ []) (process (dec_ref_count newcomer) (login login_seven ∷ [])) m
unfolding login_request_bytes CircularBuffer.get_free_space_size
recv_completion_lem_example =
    recv_completion_lem (login login_seven ∷ []) (16 ∷ 0 ∷ []) transferred half 2 newcomer
      (omega arith, tt) (inl (omega arith)) half-IsValid (omega arith) (omega arith) refl
      (omega arith) refl

-- A packet of type 2, the server's own, arrives.
abbrev empty : CircularBuffer
empty = record received { buffer = 4 ∷ 0 ∷ 2 ∷ 0 ∷ []; buffer_end = 4; a_region_size = 0 }

bad-IsHanging : IsHanging (CircularBuffer.commit empty 4)
unfolding CircularBuffer.commit
bad-IsHanging = record {
  valid = omega arith;
  has_header = omega arith;
  whole = omega arith;
  unread = inl (omega arith);
}

on_read_hangs_example : on_read 1000 (with_recv_buffer empty newcomer) 4 ≡ none
on_read_hangs_example = on_read_hangs 1000 4 (with_recv_buffer empty newcomer) bad-IsHanging

handle_chat_crashes_example : handle_chat newcomer chat_seven ≡ crashes
unfolding init
handle_chat_crashes_example = handle_chat_crashes newcomer chat_seven refl refl refl
