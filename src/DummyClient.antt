-- ===== src/DummyClient.antt =====
-- DummyClient/DummyClient/ClientSession.h, ClientSession.cpp, ClientManager.cpp and DummyClient.cpp: the
-- clients of the load test.
--
-- What a method asks of Boost.Asio is a list of actions. A read that completes is an event with the
-- bytes that came; it writes them into `mReadBuf`, and past its end it is `crashes`, as a copy past the
-- end of a struct is. `int` and `float` are bit patterns; what the C library and the processor
-- make of a number is a parameter, `Library`.
pub mod Reading
pub mod Extent
pub mod Ticking
pub mod Options
pub mod CommandLine
mod Tests
use easy_game_server.Prelude.{
  ℕ, suc, zero, ◌+◌, ◌-◌, ◌%◌, ◌<◌, ltb, leb, ◌==◌, ◌&&◌, if◌then◌else◌, Bool, true, false, not,
  Option, none, some, List, [], ◌∷◌, ◌++◌, length, take, drop, replicate, write_bytes, Outcome,
  returns, crashes, ◌>>=◌, ◌>>◌, assert, codes, sub_size,
}
use easy_game_server.PacketType.{
  header_of_bytes, pkt_sc_login, pkt_sc_chat, pkt_sc_move, login_request, login_request_bytes,
  chat_broadcast_request, chat_broadcast_request_bytes, move_request, move_request_bytes,
  LoginResult, login_result, login_result_bytes, login_result_of_bytes, ChatBroadcastResult,
  chat_broadcast_result, chat_broadcast_result_bytes, MoveBroadcastResult, move_broadcast_result,
  move_broadcast_result_bytes, move_broadcast_result_of_bytes,
}

abbrev pub recv_buf_size : ℕ
recv_buf_size = 4096

abbrev pub start_player_id : ℕ
start_player_id = 1001

-- `of_int` makes a `float` of a number that is not negative; `decimal` is what `%d` prints.
pub record Library : Type 0 where
  pub of_int : ℕ → ℕ
  pub add_float : ℕ → ℕ → ℕ
  pub sub_float : ℕ → ℕ → ℕ
  pub decimal : ℕ → List ℕ

-- `rand k` is the number that `rand` gives at this session's k-th call, and `rands` how many there were.
pub record DummyClient : Type 0 where
  pub read_buf : List ℕ
  pub logon : Bool
  pub player_id : ℕ
  pub pos_x : ℕ
  pub pos_y : ℕ
  pub rand : ℕ → ℕ
  pub rands : ℕ

-- `tcp::endpoint`.
pub record Endpoint : Type 0 where
  pub address : List ℕ
  pub port : ℕ

-- What is asked of Boost.Asio: an `async_connect`, an `async_read` of this many bytes, a `write`, and
-- `OnTick` put off by some milliseconds.
pub data Action : Type 0 where
  connects_to : Endpoint → Action
  reads_header : Action
  reads_payload : ℕ → Action
  writes : List ℕ → Action
  ticks_after : ℕ → Action

module _ (lib : Library) where
  unfoldable pub init : (ℕ → ℕ) → List ℕ → ℕ → DummyClient
  init rand read_buf id = record {
    read_buf = read_buf;
    logon = false;
    player_id = id;
    pos_x = lib.of_int (rand 0 % 500 + 200);
    pos_y = lib.of_int (rand 1 % 300 + 100);
    rand = rand;
    rands = 2;
  }

unfoldable pub connect : Endpoint → DummyClient → DummyClient × List Action
connect target d = (d, connects_to target ∷ [])

-- `mReadBuf.fill(0)`, and the read of a header.
unfoldable pub post_read_header : DummyClient → DummyClient × List Action
post_read_header d = (record d { read_buf = replicate (length d.read_buf) 0 }, reads_header ∷ [])

-- The error that it is called with is not looked at.
unfoldable pub handle_connect : DummyClient → DummyClient × List Action
unfolding post_read_header
handle_connect d =
    let (d', effects) = post_read_header d in
    (
      d',
      effects
          ++ (writes (login_request_bytes (record login_request { player_id = d.player_id })) ∷ []),
    )

-- `pktLen` and `pktType`.
abbrev pub pkt_len : DummyClient → ℕ
pkt_len d = (header_of_bytes (take 4 d.read_buf)).size

abbrev pub pkt_type : DummyClient → ℕ
pkt_type d = (header_of_bytes (take 4 d.read_buf)).type

-- `len` is an `int` that is turned into a `size_t`.
abbrev pub post_read_payload : ℕ → Action
post_read_payload len = reads_payload len

unfoldable pub handle_read_header : Bool → DummyClient → List Action
handle_read_header error d = if error then [] else post_read_payload (sub_size (pkt_len d) 4) ∷ []

-- `memcpy_s` of `pktLen` bytes into a struct with these bytes.
abbrev pub copied : DummyClient → List ℕ → Outcome (List ℕ)
copied d constructed =
    assert (leb (pkt_len d) (length constructed))
    >> returns (write_bytes constructed 0 (take (pkt_len d) d.read_buf))

-- What is done with a packet; a chat is only printed.
abbrev pub logged_on : DummyClient → DummyClient × List Action
logged_on d =
    (record d { logon = true; rands = suc d.rands }, ticks_after (d.rand d.rands % 1000) ∷ [])

abbrev pub move_done : DummyClient → MoveBroadcastResult → DummyClient
move_done d p =
    if d.player_id == p.player_id then record d { pos_x = p.pos_x; pos_y = p.pos_y } else d

-- The `switch` on the packet's type.
unfoldable pub handle_packet : DummyClient → Outcome (DummyClient × List Action)
handle_packet d =
    if pkt_type d == pkt_sc_login
    then (copied d (login_result_bytes login_result) >>= λ _. returns (logged_on d))
    else if pkt_type d == pkt_sc_chat
    then (copied d (chat_broadcast_result_bytes chat_broadcast_result) >>= λ _. returns (d, []))
    else if pkt_type d == pkt_sc_move
    then (copied d (move_broadcast_result_bytes move_broadcast_result) >>= λ bytes.
        returns (move_done d (move_broadcast_result_of_bytes bytes), []))
    else returns (d, [])

unfoldable pub handle_read_payload : Bool → DummyClient → Outcome (DummyClient × List Action)
unfolding handle_packet post_read_header
handle_read_payload error d =
    if error
    then returns (d, [])
    else (handle_packet d >>= λ (d', effects).
        returns ((post_read_header d').0, effects ++ (post_read_header d').1))

module _ (lib : Library) where
  -- `sprintf_s` of a text that has no room with its 0 stops the process.
  abbrev pub printed : List ℕ → List ℕ → Outcome (List ℕ)
  printed chat text =
      assert (ltb (length text) (length chat)) >> returns (write_bytes chat 0 (text ++ (0 ∷ [])))

  abbrev pub test_chat : ℕ → List ℕ
  test_chat id = codes " TEST CHAT: HELLO~~ This is Player " ++ lib.decimal id ++ codes " ====="

  -- A position moved by the next number of `rand` below `range`, less `half`.
  abbrev pub walked : ℕ → ℕ → ℕ → ℕ → ℕ
  walked pos random range half =
      lib.sub_float (lib.add_float pos (lib.of_int (random % range))) (lib.of_int half)

  -- One call in five says something, the others walk.
  unfoldable pub on_tick : DummyClient → Outcome (DummyClient × List Action)
  on_tick d =
      if not d.logon
      then returns (d, [])
      else if d.rand d.rands % 5 == 0
      then (printed chat_broadcast_request.chat (test_chat d.player_id) >>= λ chat. returns (
        record d { rands = d.rands + 1 },
        writes (
              chat_broadcast_request_bytes
                (record chat_broadcast_request { player_id = d.player_id; chat = chat }))
            ∷ ticks_after 1000
            ∷ [],
      ))
      else returns (
        record d { rands = d.rands + 3 },
        writes (
              move_request_bytes (record move_request {
                player_id = d.player_id;
                pos_x = walked d.pos_x (d.rand (d.rands + 1)) 100 50;
                pos_y = walked d.pos_y (d.rand (d.rands + 2)) 60 30;
              }))
            ∷ ticks_after 1000
            ∷ [],
      )

-- Bytes that a read has waited for, at their place in `mReadBuf`.
abbrev pub arrived : DummyClient → ℕ → List ℕ → Outcome DummyClient
arrived d p bytes =
    assert (leb (p + length bytes) (length d.read_buf))
    >> returns (record d { read_buf = write_bytes d.read_buf p bytes })

-- What one packet of the stream of bytes that come does to a client that reads a header: the
-- `async_read`s complete when all that they wait for is there. It gives what follows the packet, and
-- `none` while it is not whole.
abbrev pub read_payload :
    ℕ → DummyClient → List ℕ → Outcome (Option (DummyClient × List Action × List ℕ))
read_payload n d bytes =
    if ltb (length bytes) n
    then returns none
    else (arrived d 4 (take n bytes) >>= λ d'. handle_read_payload false d' >>= λ (d'', effects).
        returns (some (d'', effects, drop n bytes)))

unfoldable pub take_packet :
    DummyClient → List ℕ → Outcome (Option (DummyClient × List Action × List ℕ))
unfolding handle_read_payload handle_read_header
take_packet d bytes =
    if ltb (length bytes) 4
    then returns none
    else (arrived d 0 (take 4 bytes) >>= λ d'. elim (handle_read_header false d') [
      | reads_payload n ∷ [] ↦ read_payload n d' (drop 4 bytes)
      | _ ↦ returns none
    ])

-- Packets one after the other, for at most `fuel` rounds.
unfoldable pub take_packets :
    ℕ → DummyClient → List ℕ → Option (Outcome (DummyClient × List Action × List ℕ))
take_packets zero d bytes = none
take_packets (suc fuel) d bytes = elim (take_packet d bytes) [
  | crashes ↦ some crashes
  | returns none ↦ some (returns (d, [], bytes))
  | returns (some (d', effects, rest)) ↦ elim (take_packets fuel d' rest) [
    | none ↦ none
    | some outcome ↦ some (outcome >>= λ (d'', later, left). returns (d'', effects ++ later, left))
  ]
]

module _ (lib : Library) where
  -- The sessions that `Start` makes, each with what it asks for.
  unfoldable pub start : (ℕ → ℕ → ℕ) → List ℕ → Endpoint → ℕ → List (DummyClient × List Action)
  unfolding init connect
  start rand read_buf serv zero = []
  start rand read_buf serv (suc i) =
      start rand read_buf serv i
      ++ (connect serv (init lib (rand i) read_buf (start_player_id + i)) ∷ [])
