-- ===== src/Journey/Chat.antt =====
-- A chat on its way: PacketHandling.cpp and ClientManager.cpp of EasyServer/EasyServer, then TcpClient.cpp
-- of Cocos2dxGameClient/Classes.
use easy_game_server.Prelude.{
  Bool, ℕ, suc, ◌≤◌, ◌<◌, ◌^◌, ◌≡◌, ◌≢◌, refl, ap, sym, ◌∙◌, true, some, inl, List, [], ◌∷◌, ◌++◌,
  length, arith, returns, Returns, take, find_nul, write_bytes, length-write_bytes, strcpy_s-some,
  string-copy, string, append-nil,
}
use easy_game_server.PacketType.{
  ChatBroadcastRequest, chat_broadcast_result, chat_broadcast_result_bytes, minus_one, max_name_len,
  max_chat_len,
}
use easy_game_server.CircularBuffer
use easy_game_server.CircularBuffer.{CircularBuffer}
use easy_game_server.CircularBuffer.Invariant.{IsValid, contents}
use easy_game_server.CircularBuffer.Writing.{write_refines}
use easy_game_server.ClientSession.{ClientSession, broadcasts, broadcast, send_request}
use easy_game_server.PacketHandling.{handle_chat}
use easy_game_server.ClientManager.{ClientManager, broadcast_packet}
use easy_game_server.ClientManager.Heap.{lookup}
use easy_game_server.ClientManager.Creating.{IsWellFormed}
use easy_game_server.ClientManager.Broadcast.{has}
use easy_game_server.TcpClient.{TcpClient, chat_draw, process_packet, chat_received}
use easy_game_server.TcpClient.Results.{chat, IsResult, process, with_recv_buffer, receiving}
use easy_game_server.TcpClient.Receiving.{process_packet_processes}
use easy_game_server.Journey.Passing.{passed_on}

-- The result of a chat by a player whose name is `i` bytes long, and its text `j`.
abbrev pub said_bytes : ChatBroadcastRequest → List ℕ → ℕ → ℕ → List ℕ
said_bytes p player_name i j = chat_broadcast_result_bytes (record chat_broadcast_result {
  player_id = p.player_id;
  name = write_bytes chat_broadcast_result.name 0 (take (suc i) player_name);
  chat = write_bytes chat_broadcast_result.chat 0 (take (suc j) p.chat);
})

-- Room for it.
abbrev pub HasRoom : ClientSession → List ℕ → Type 0
HasRoom s packet = length packet ≤ (CircularBuffer.get_free_space_size s.send_buffer).0

handle_chat_lem :
    (p : ChatBroadcastRequest) (s : ClientSession) (i j : ℕ)
    → p.player_id ≡ s.player_id
    → s.connected ≡ true
    → IsValid s.send_buffer
    → find_nul (take max_name_len s.player_name) ≡ some i
    → find_nul (take max_chat_len p.chat) ≡ some j
    → HasRoom s (said_bytes p s.player_name i j)
    → (s' : ClientSession) × (handle_chat s p
        ≡ returns (s', broadcasts (said_bytes p s.player_name i j) ∷ []))
unfolding handle_chat broadcast send_request
handle_chat_lem p s i j own on v named said room =
    let name = strcpy_s-some chat_broadcast_result.name s.player_name i named in
    let text = strcpy_s-some chat_broadcast_result.chat p.chat j said in
    let packet = said_bytes p s.player_name i j in
    (
      record s { send_buffer = (CircularBuffer.write s.send_buffer packet).1 },
      ground (arith, own, on, name, text, room, write_refines packet v),
    )

-- The client draws the name and the text.
chat_heard :
    (p : ChatBroadcastRequest) (player_name : List ℕ) (i j : ℕ) (b : CircularBuffer) (c : TcpClient)
    (debug : Bool) (fuel : ℕ)
    → p.player_id < 2 ^ 32
    → p.player_id ≢ minus_one
    → find_nul (take max_name_len player_name) ≡ some i
    → find_nul (take max_chat_len p.chat) ≡ some j
    → IsValid b
    → contents b ≡ said_bytes p player_name i j
    → (c' : TcpClient) × (process_packet debug (suc (suc fuel)) (with_recv_buffer b c)
        ≡ some (returns (c', chat_draw (take i player_name) (take j p.chat) ∷ [])))
unfolding process chat_received
chat_heard p player_name i j b c debug fuel id_in id named said v e =
    let name = write_bytes chat_broadcast_result.name 0 (take (suc i) player_name) in
    let text = write_bytes chat_broadcast_result.chat 0 (take (suc j) p.chat) in
    let r =
      chat (record chat_broadcast_result { player_id = p.player_id; name = name; chat = text }) in
    let good : IsResult r = (
      (
        record { size_in = omega arith; type_in = omega arith },
        id_in,
        length-write_bytes chat_broadcast_result.name 0 (take (suc i) player_name),
        length-write_bytes chat_broadcast_result.chat 0 (take (suc j) p.chat),
      ),
      (refl, refl),
      id,
    ) in
    let (d, w, empty, same, run) =
      process_packet_processes debug (r ∷ []) [] b (good, tt) (inl (omega arith)) v
        (e ∙ sym (append-nil (said_bytes p player_name i j))) in
    let from : string (name ++ text) ≡ returns (take i player_name) =
      string-copy chat_broadcast_result.name player_name text i named in
    let drawn : string text ≡ returns (take j p.chat) =
      ap string (sym (append-nil text)) ∙ string-copy chat_broadcast_result.chat p.chat [] j said in
    let processed : process c (r ∷ [])
        ≡ returns (c, chat_draw (take i player_name) (take j p.chat) ∷ []) =
      rw (from, drawn) refl in
    (
      with_recv_buffer d c,
      run (suc (suc fuel)) c (omega arith) ∙ ap (λ o. some (receiving d o)) processed,
    )

-- A chat of a connected session's own player, its id fitting and not -1, whose name and text end
-- within their arrays, in a well-formed client manager whose send buffers concerned are valid and
-- have room for the result: `Handler_PKT_CS_CHAT` broadcasts one packet, `BroadcastPacket` puts it
-- behind what is to be sent to any other connected session of the list, and a game client that
-- receives it alone in a valid buffer, given two rounds, has its scene draw the name and the text.
pub chat_travels :
    (p : ChatBroadcastRequest) (s t : ClientSession) (m : ClientManager) (i j from to : ℕ)
    → p.player_id < 2 ^ 32
    → p.player_id ≢ minus_one
    → p.player_id ≡ s.player_id
    → find_nul (take max_name_len s.player_name) ≡ some i
    → find_nul (take max_chat_len p.chat) ≡ some j
    → s.connected ≡ true
    → IsValid s.send_buffer
    → HasRoom s (said_bytes p s.player_name i j)
    → IsWellFormed m
    → has m.client_list to ≡ true
    → from ≢ to
    → lookup m.sessions to ≡ some t
    → t.connected ≡ true
    → IsValid t.send_buffer
    → HasRoom t (said_bytes p s.player_name i j)
    → let packet = said_bytes p s.player_name i j in
      ((s' : ClientSession) × (handle_chat s p ≡ returns (s', broadcasts packet ∷ [])))
      × Returns (broadcast_packet m from packet) (λ after.
        (t' : ClientSession) × (lookup after.sessions to ≡ some t')
        × (contents t'.send_buffer ≡ contents t.send_buffer ++ packet))
      × ((b : CircularBuffer) (c : TcpClient) (debug : Bool) (fuel : ℕ)
          → IsValid b
          → contents b ≡ packet
          → (c' : TcpClient) × (process_packet debug (suc (suc fuel)) (with_recv_buffer b c)
              ≡ some (returns (c', chat_draw (take i s.player_name) (take j p.chat) ∷ []))))
chat_travels p s t m i j from to id_in id own named said on v room w listed other live on' v'
      room' =
    (
      handle_chat_lem p s i j own on v named said room,
      passed_on (said_bytes p s.player_name i j) m from to t w listed other live on' v' room',
      λ b c debug fuel u e. chat_heard p s.player_name i j b c debug fuel id_in id named said u e,
    )
