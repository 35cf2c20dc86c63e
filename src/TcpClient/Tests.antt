-- ===== src/TcpClient/Tests.antt =====
-- A socket that takes at most three bytes at once, one that takes all, and a buffer with results.
use easy_game_server.Prelude.{
  ◌⊎◌, true, false, none, crashes, ℕ, ◌*◌, ◌≤◌, ◌<◌, ◌≡◌, refl, arith, true, false, none, some, inl,
  List, [], ◌∷◌, ◌++◌, replicate, take, drop, All, length-replicate, Outcome, returns, ◌>>=◌,
  length, map, min, Bool, if◌then◌else◌, ◌==◌,
}
use easy_game_server.PacketType.{
  login_result, move_broadcast_result, login_result_bytes, move_broadcast_result_bytes,
  move_request_bytes, chat_broadcast_request_bytes,
}
use easy_game_server.CircularBuffer.{CircularBuffer}
use easy_game_server.CircularBuffer.Invariant.{IsValid, contents}
use easy_game_server.CircularBuffer.Sending.{init-IsValid}
use easy_game_server.TcpClient.{
  Connection, TcpClient, SceneCall, init, send, process_packet, packet_round, dispatch,
  network_thread,
}
use easy_game_server.TcpClient.Sending.{IsTaking, send_lem, send_stops_early}
use easy_game_server.TcpClient.Results.{
  Result, IsResult, login, move, process, receiving, with_recv_buffer,
}
use easy_game_server.TcpClient.Receiving.{stream}
use easy_game_server.TcpClient.Network.{network_thread_processes}
use easy_game_server.TcpClient.Ending.{process_packet_ends}
use easy_game_server.TcpClient.Conversation.{
  Call, moves, chats, request_of, run_calls, conversation_lem,
}
use easy_game_server.PacketHandling.{recv_completion, receive_again}
use easy_game_server.PacketHandling.Requests.{Request}
use easy_game_server.PacketHandling.Requests
use easy_game_server.PacketHandling.Framing
use easy_game_server.ClientSession.{ClientSession, dec_ref_count}
use easy_game_server.CircularBuffer

abbrev slow : Connection
slow = record { takes = λ k m. if m == 0 then none else some (min m 3); calls = 0; sent = [] }

slow-IsTaking : IsTaking slow
slow-IsTaking k m n e = ground (arith, e)

send_lem_example :
    (ok : Bool) × (c' : Connection) × (n : ℕ) × (send 6 slow (1 ∷ 2 ∷ 3 ∷ 4 ∷ 5 ∷ [])
      ≡ some (ok, c'))
    × (c'.sent ≡ take n (1 ∷ 2 ∷ 3 ∷ 4 ∷ 5 ∷ []))
    × (n ≤ 5)
    × (ok ≡ true → 5 ≤ 2 * n)
send_lem_example = send_lem 6 slow (1 ∷ 2 ∷ 3 ∷ 4 ∷ 5 ∷ []) slow-IsTaking (omega arith)

send_stops_early_example :
    (c' : Connection) × (send 2 slow (1 ∷ 2 ∷ 3 ∷ 4 ∷ 5 ∷ []) ≡ some (true, c'))
    × (c'.sent ≡ 1 ∷ 2 ∷ 3 ∷ [])
send_stops_early_example =
    send_stops_early 0 3 slow (1 ∷ 2 ∷ 3 ∷ 4 ∷ 5 ∷ []) refl (omega arith) (omega arith)

-- A login under the id 7, a move to the pattern 9 of the same player, and the start of another packet.
abbrev results : List Result
results =
    login (record login_result { player_id = 7 })
    ∷ move (record move_broadcast_result { player_id = 7; pos_x = 9 })
    ∷ []

abbrev incoming : List ℕ
incoming =
    46 ∷ 0 ∷ 2 ∷ 0 ∷ 7 ∷ replicate 41 0
    ++ 16 ∷ 0 ∷ 22 ∷ 0 ∷ 7 ∷ 0 ∷ 0 ∷ 0 ∷ 9 ∷ replicate 7 0
    ++ 46 ∷ 0 ∷ []

abbrev received : CircularBuffer
received = record {
  buffer = incoming;
  buffer_end = 64;
  a_region_pointer = 0;
  a_region_size = 64;
  b_region_pointer = none;
  b_region_size = 0;
}

received-IsValid : IsValid received
received-IsValid = omega arith

contents-received : contents received ≡ stream results (46 ∷ 0 ∷ [])
unfolding login_result_bytes move_broadcast_result_bytes
contents-received = refl

results-AreResults : All IsResult results
results-AreResults = (
  (
    (
      record { size_in = omega arith; type_in = omega arith },
      omega arith,
      omega arith,
      omega arith,
      refl,
    ),
    (refl, refl),
    omega arith,
  ),
  (omega arith, tt),
)

-- The same bytes in two receives, with one between them that fails.
abbrev receives : List (List ℕ)
receives = take 40 incoming ∷ [] ∷ drop 40 incoming ∷ []

abbrev roomy : CircularBuffer
roomy = CircularBuffer.init (replicate 32768 0)

roomy-IsValid : IsValid roomy
roomy-IsValid =
    (init-IsValid (replicate 32768 0) (omega (arith, length-replicate {A = ℕ} 32768 0))).0

network_thread_processes_example :
    (d : CircularBuffer) × IsValid d
    × (contents d ≡ 46 ∷ 0 ∷ [])
    × ((fuel : ℕ) (c : TcpClient)
        → 2 < fuel
        → network_thread true fuel (with_recv_buffer roomy c) receives
          ≡ some (receiving d (process c results)))
unfolding CircularBuffer.init login_result_bytes move_broadcast_result_bytes
network_thread_processes_example =
    network_thread_processes true receives results (46 ∷ 0 ∷ []) roomy results-AreResults
      (inl (omega arith), omega arith) (omega arith, (omega arith, (omega arith, tt))) roomy-IsValid
      (omega (arith, length-replicate {A = ℕ} 32768 0)) (inl (omega arith), omega arith) refl

process_packet_ends_example :
    let client = with_recv_buffer received (init slow []) in
    ((outcome : Outcome (TcpClient × List SceneCall)) × (process_packet false 65 client
        ≡ some outcome))
    ⊎ ((false ≡ false) × ((n : ℕ) → process_packet false n client ≡ none))
process_packet_ends_example =
    process_packet_ends false 65 (with_recv_buffer received (init slow [])) received-IsValid
      (omega arith)

-- A player 7 that moves and says "hi", and a buffer of 300 bytes.
abbrev calls : List Call
calls = moves 9 5 ∷ chats (104 ∷ 105 ∷ 0 ∷ []) 2 ∷ []

abbrev empty : CircularBuffer
empty = record {
  buffer = replicate 300 0;
  buffer_end = 300;
  a_region_pointer = 0;
  a_region_size = 0;
  b_region_pointer = none;
  b_region_size = 0;
}

abbrev willing : TcpClient
willing = record {
  sock = record { takes = λ k m. some m; calls = 0; sent = [] };
  recv_buffer = empty;
  login_id = 7;
}

empty-IsValid : IsValid empty
empty-IsValid = omega arith

abbrev requests : List Request
requests = map (request_of 7) calls

length-requests : length (Framing.stream requests []) ≡ 280
unfolding move_request_bytes chat_broadcast_request_bytes
length-requests = refl

room : 280 ≤ (CircularBuffer.get_free_space_size empty).0
unfolding CircularBuffer.get_free_space_size
room = omega arith

conversation_lem_example :
    (c' : TcpClient) × (d : CircularBuffer) × IsValid d
    × (contents d ≡ [])
    × (run_calls 2 calls willing ≡ returns (some c'))
    × ((rounds : ℕ) (s : ClientSession)
        → 2 < rounds
        → s.connected ≡ true
        → recv_completion rounds
            (Requests.with_recv_buffer (CircularBuffer.get_free_space_size empty).1 s)
            false
            (CircularBuffer.get_buffer (CircularBuffer.get_free_space_size empty).1)
            c'.sock.sent
          ≡ some (
              Requests.receiving d (Requests.process (dec_ref_count s) requests) >>= receive_again))
conversation_lem_example =
    conversation_lem 0 calls willing empty (λ k m. refl) refl refl
      ((omega arith, omega arith), ((refl, omega arith), tt)) empty-IsValid refl
      (rw length-requests (omega arith)) (rw length-requests room)

-- A packet of type 99 that came alone.
abbrev unknown : CircularBuffer
unknown = record received { buffer = 4 ∷ 0 ∷ 99 ∷ 0 ∷ []; buffer_end = 4; a_region_size = 4 }

process_packet-unknown :
    let client = with_recv_buffer unknown (init slow []) in
    (process_packet true 2 client ≡ some crashes) × (process_packet false 100 client ≡ none)
unfolding process_packet packet_round dispatch CircularBuffer.peek CircularBuffer.get_stored_size
process_packet-unknown = (refl, refl)
