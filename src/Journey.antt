-- ===== src/Journey.antt =====
-- A move on its way: PacketHandling.cpp and ClientManager.cpp of EasyServer/EasyServer, then TcpClient.cpp
-- and HelloWorldScene.cpp of Cocos2dxGameClient/Classes.
pub mod Passing
pub mod Login
pub mod Chat
mod Tests
use easy_game_server.Prelude.{
  Bool, ℕ, suc, ◌≤◌, ◌<◌, ◌^◌, ◌≡◌, ◌≢◌, refl, ap, sym, ◌∙◌, not, ◌&&◌, ◌==◌, if◌then◌else◌, true,
  false, some, inl, List, [], ◌∷◌, ◌++◌, length, arith, returns, Returns, Returns_mono, append-nil,
  leb,
}
use easy_game_server.PacketType.{
  MoveRequest, move_broadcast_result, move_broadcast_result_bytes, minus_one,
}
use easy_game_server.CircularBuffer
use easy_game_server.CircularBuffer.{CircularBuffer}
use easy_game_server.CircularBuffer.Invariant.{IsValid, contents}
use easy_game_server.CircularBuffer.Writing.{write_refines}
use easy_game_server.ClientSession.{ClientSession, broadcasts, send_request}
use easy_game_server.PacketHandling.{handle_move}
use easy_game_server.PacketHandling.Chat.{moved_bytes, handle_move_lem}
use easy_game_server.ClientManager.{ClientManager, broadcast_packet}
use easy_game_server.ClientManager.Heap.{lookup}
use easy_game_server.ClientManager.Invariant.{IsSession, IsMap, IsMap-IsListed}
use easy_game_server.ClientManager.Creating.{IsWellFormed}
use easy_game_server.ClientManager.Broadcast.{has, sent, broadcast_packet_lem}
use easy_game_server.TcpClient.{TcpClient, SceneCall, update_peer, process_packet, move_received}
use easy_game_server.TcpClient.Results.{
  Result, move, IsResult, process, with_recv_buffer, receiving,
}
use easy_game_server.TcpClient.Receiving.{stream, process_packet_processes}
use easy_game_server.Journey.Passing.{passed_on}
use easy_game_server.HelloWorld.{HelloWorld, Peer}
use easy_game_server.HelloWorld.Showing.{shown, performs, shown-performs}

-- Room for the result of a move.
abbrev pub HasRoom : ClientSession → MoveRequest → Type 0
HasRoom s p = length (moved_bytes p) ≤ (CircularBuffer.get_free_space_size s.send_buffer).0

-- The others' scenes show the player where the packet says.
move_shown :
    (p : MoveRequest) (b : CircularBuffer) (c : TcpClient) (h : HelloWorld) (debug : Bool)
    (fuel : ℕ)
    → p.player_id < 2 ^ 32
    → p.pos_x < 2 ^ 32
    → p.pos_y < 2 ^ 32
    → p.player_id ≢ minus_one
    → p.player_id ≢ c.login_id
    → IsValid b
    → contents b ≡ moved_bytes p
    → (c' : TcpClient) × (calls : List SceneCall) × (process_packet debug
          (suc (suc fuel))
          (with_recv_buffer b c)
        ≡ some (returns (c', calls)))
      × (shown (performs h calls).peer_map p.player_id ≡ some (p.pos_x, p.pos_y))
unfolding process move_received
move_shown p b c h debug fuel id_in x_in y_in id other v e =
    let r = move (record move_broadcast_result {
      player_id = p.player_id;
      pos_x = p.pos_x;
      pos_y = p.pos_y;
    }) in
    let good : IsResult r = (
      (record { size_in = omega arith; type_in = omega arith }, id_in, x_in, y_in),
      (refl, refl),
      id,
    ) in
    let (d, w, empty, same, run) =
      process_packet_processes debug (r ∷ []) [] b (good, tt) (inl (omega arith)) v
        (e ∙ sym (append-nil (moved_bytes p))) in
    let calls = update_peer p.player_id p.pos_x p.pos_y ∷ [] in
    let processed : process c (r ∷ []) ≡ returns (c, calls) = ground (arith, other) in
    (
      with_recv_buffer d c,
      calls,
      run (suc (suc fuel)) c (omega arith) ∙ ap (λ o. some (receiving d o)) processed,
      shown-performs calls h p.player_id ∙ ground arith,
    )

-- A move of a connected session's own player, its fields fitting and its id not -1, in a
-- well-formed client manager whose send buffers concerned are valid and have room for the result:
-- `Handler_PKT_CS_MOVE` broadcasts one packet, `BroadcastPacket` puts it behind what is to be sent
-- to any other connected session of the list, and a game client of another player that receives it
-- alone in a valid buffer, given two rounds, has its scene show the player at the place of the
-- move.
pub move_travels :
    (p : MoveRequest) (s t : ClientSession) (m : ClientManager) (from to : ℕ)
    → p.player_id < 2 ^ 32
    → p.pos_x < 2 ^ 32
    → p.pos_y < 2 ^ 32
    → p.player_id ≢ minus_one
    → p.player_id ≡ s.player_id
    → s.connected ≡ true
    → IsValid s.send_buffer
    → HasRoom s p
    → IsWellFormed m
    → has m.client_list to ≡ true
    → from ≢ to
    → lookup m.sessions to ≡ some t
    → t.connected ≡ true
    → IsValid t.send_buffer
    → HasRoom t p
    → let packet = moved_bytes p in
      ((s' : ClientSession) × (handle_move s p ≡ returns (s', broadcasts packet ∷ [])))
      × Returns (broadcast_packet m from packet) (λ after.
        (t' : ClientSession) × (lookup after.sessions to ≡ some t')
        × (contents t'.send_buffer ≡ contents t.send_buffer ++ packet))
      × ((b : CircularBuffer) (c : TcpClient) (h : HelloWorld) (debug : Bool) (fuel : ℕ)
          → p.player_id ≢ c.login_id
          → IsValid b
          → contents b ≡ packet
          → (c' : TcpClient) × (calls : List SceneCall) × (process_packet debug
                (suc (suc fuel))
                (with_recv_buffer b c)
              ≡ some (returns (c', calls)))
            × (shown (performs h calls).peer_map p.player_id ≡ some (p.pos_x, p.pos_y)))
move_travels p s t m from to id_in x_in y_in id own on v room w listed other live on' v' room' =
    let moved = handle_move_lem s p own on v room in
    (
      (moved.0, moved.1),
      passed_on (moved_bytes p) m from to t w listed other live on' v' room',
      λ b c h debug fuel apart u e. move_shown p b c h debug fuel id_in x_in y_in id apart u e,
    )
