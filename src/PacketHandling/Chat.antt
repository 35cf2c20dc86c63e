-- ===== src/PacketHandling/Chat.antt =====
-- Chat and move requests: who is heard, and what stops the server.
use easy_game_server.Prelude.{
  ℕ, ◌≤◌, ◌≡◌, ◌≢◌, refl, sym, none, List, [], ◌∷◌, ◌++◌, length, arith, replicate, returns,
  crashes, true, find_nul, strcpy_s, strcpy_s-crashes, ◌∙◌, length-replicate,
}
use easy_game_server.PacketType.{
  ChatBroadcastRequest, chat_broadcast_result, MoveRequest, move_broadcast_result,
  move_broadcast_result_bytes, max_chat_len,
}
use easy_game_server.CircularBuffer
use easy_game_server.CircularBuffer.Invariant.{IsValid, contents}
use easy_game_server.CircularBuffer.Writing.{write_refines}
use easy_game_server.ClientSession.{
  ClientSession, broadcasts, set_position, send_request, broadcast,
}
use easy_game_server.PacketHandling.{handle_chat, handle_move}

-- A packet under another player's id changes nothing and is not passed on.
pub handle_impostor :
    (s : ClientSession) (said : ChatBroadcastRequest) (moved : MoveRequest)
    → said.player_id ≢ s.player_id
    → moved.player_id ≢ s.player_id
    → (handle_chat s said ≡ returns (s, [])) × (handle_move s moved ≡ returns (s, []))
unfolding handle_chat handle_move
handle_impostor s said moved h k = ground (arith, h, k)

abbrev pub moved_bytes : MoveRequest → List ℕ
moved_bytes packet = move_broadcast_result_bytes (record move_broadcast_result {
  player_id = packet.player_id;
  pos_x = packet.pos_x;
  pos_y = packet.pos_y;
})

-- A move of the session's own player sets its position. With room in its send buffer, the result is
-- put behind what is to be sent to it, and is broadcast to the others.
pub handle_move_lem :
    (s : ClientSession) (packet : MoveRequest)
    → packet.player_id ≡ s.player_id
    → s.connected ≡ true
    → IsValid s.send_buffer
    → length (moved_bytes packet) ≤ (CircularBuffer.get_free_space_size s.send_buffer).0
    → (t : ClientSession) × (handle_move s packet
        ≡ returns (t, broadcasts (moved_bytes packet) ∷ []))
      × (t.pos_x ≡ packet.pos_x)
      × (t.pos_y ≡ packet.pos_y)
      × (contents t.send_buffer ≡ contents s.send_buffer ++ moved_bytes packet)
unfolding handle_move broadcast send_request
handle_move_lem s packet id on v room = (
  record (set_position s packet.pos_x packet.pos_y) {
    send_buffer = (CircularBuffer.write s.send_buffer (moved_bytes packet)).1;
  },
  ground (arith, id, on, v, room, write_refines (moved_bytes packet) v),
  refl,
  refl,
  ground (arith, v, room, write_refines (moved_bytes packet) v),
)

-- A chat whose 256 bytes hold no 0 stops the server.
pub handle_chat_crashes :
    (s : ClientSession) (packet : ChatBroadcastRequest)
    → packet.player_id ≡ s.player_id
    → length packet.chat ≡ max_chat_len
    → find_nul packet.chat ≡ none
    → handle_chat s packet ≡ crashes
unfolding handle_chat
handle_chat_crashes s packet id l h =
    let e =
      strcpy_s-crashes (replicate max_chat_len 0) packet.chat
        (l ∙ sym (length-replicate {A = ℕ} 256 0)) h in
    elim (strcpy_s chat_broadcast_result.name s.player_name) [
      | returns name ↦ ground (arith, id, e)
      | crashes ↦ ground (arith, id)
    ]
