-- ===== src/Journey/Passing.antt =====
-- What `BroadcastPacket` brings to one session of the list.
use easy_game_server.Prelude.{
  ℕ, ◌≤◌, ◌≡◌, ◌≢◌, ◌∙◌, true, some, List, ◌++◌, length, arith, Returns, Returns_mono,
}
use easy_game_server.CircularBuffer
use easy_game_server.CircularBuffer.Invariant.{IsValid, contents}
use easy_game_server.CircularBuffer.Writing.{write_refines}
use easy_game_server.ClientSession.{ClientSession, send_request}
use easy_game_server.ClientManager.{ClientManager, broadcast_packet}
use easy_game_server.ClientManager.Heap.{lookup}
use easy_game_server.ClientManager.Invariant.{IsMap-IsListed}
use easy_game_server.ClientManager.Creating.{IsWellFormed}
use easy_game_server.ClientManager.Broadcast.{has, broadcast_packet_lem}

-- The packet stands behind what was to be sent.
send_request-contents :
    (s : ClientSession) (packet : List ℕ)
    → s.connected ≡ true
    → IsValid s.send_buffer
    → length packet ≤ (CircularBuffer.get_free_space_size s.send_buffer).0
    → contents (send_request s packet).1.send_buffer ≡ contents s.send_buffer ++ packet
unfolding send_request
send_request-contents s packet on v room = ground (arith, on, room, write_refines packet v)

pub passed_on :
    (packet : List ℕ) (m : ClientManager) (from to : ℕ) (t : ClientSession)
    → IsWellFormed m
    → has m.client_list to ≡ true
    → from ≢ to
    → lookup m.sessions to ≡ some t
    → t.connected ≡ true
    → IsValid t.send_buffer
    → length packet ≤ (CircularBuffer.get_free_space_size t.send_buffer).0
    → Returns (broadcast_packet m from packet) λ after.
      (t' : ClientSession) × (lookup after.sessions to ≡ some t')
      × (contents t'.send_buffer ≡ contents t.send_buffer ++ packet)
passed_on packet m from to t w listed other live on v room =
    Returns_mono (broadcast_packet m from packet) _ _
      (broadcast_packet_lem m from packet (IsMap-IsListed m.sessions m.client_list w))
      λ after (same, cells). (
        (send_request t packet).1,
        cells to ∙ rw live (ground (arith, listed, other)),
        send_request-contents t packet on v room,
      )
