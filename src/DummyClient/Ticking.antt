-- ===== src/DummyClient/Ticking.antt =====
-- What a client of the load test sends on a tick.
use easy_game_server.Prelude.{
  ℕ, ◌+◌, ◌%◌, ◌^◌, ◌≤◌, ◌<◌, ◌≡◌, refl, ◌==◌, Bool-cases, inl, inr, List, [], ◌∷◌, ◌++◌, length,
  arith, Returns, true, write_bytes, length-append, length-write_bytes, codes, ltb,
}
use easy_game_server.PacketType.{chat_broadcast_request, move_request}
use easy_game_server.PacketHandling.Requests.{Request, chat, move, request_bytes, IsRequest}
use easy_game_server.DummyClient.{
  Library, DummyClient, Action, writes, ticks_after, on_tick, test_chat, walked,
}

-- What is written is a request that the server handles, under the client's id, and the next tick is put
-- off by a second.
abbrev pub Asks : DummyClient → DummyClient × List Action → Type 0
Asks d (d', effects) =
    (r : Request) × IsRequest r × (effects ≡ writes (request_bytes r) ∷ ticks_after 1000 ∷ [])

length-test_chat :
    (lib : Library) (id : ℕ)
    → ((n : ℕ) → length (lib.decimal n) ≤ 11)
    → length (test_chat lib id) < 256
length-test_chat lib id digits =
    let before = codes " TEST CHAT: HELLO~~ This is Player " in
    let behind = codes " =====" in
    omega (
      arith,
      digits id,
      length-append (before ++ lib.decimal id) behind,
      length-append before (lib.decimal id),
    )

-- A client that is logged in, where a difference of `float`s is a word of 32 bits and an `int` has at
-- most eleven characters, sends on each tick one request with the header and the fields that the server
-- looks for, and puts the next tick off by a second. The process is not stopped.
pub on_tick_lem :
    (lib : Library) (d : DummyClient)
    → ((x y : ℕ) → lib.sub_float x y < 2 ^ 32)
    → ((n : ℕ) → length (lib.decimal n) ≤ 11)
    → d.logon ≡ true
    → d.player_id < 2 ^ 32
    → Returns (on_tick lib d) (Asks d)
unfolding on_tick
on_tick_lem lib d floats digits logged id =
    let text = test_chat lib d.player_id in
    let full = text ++ (0 ∷ []) in
    let short : ltb (length text) 256 ≡ true =
      ground (arith, length-test_chat lib d.player_id digits) in
    let said = record chat_broadcast_request {
      player_id = d.player_id;
      chat = write_bytes chat_broadcast_request.chat 0 full;
    } in
    let step = record move_request {
      player_id = d.player_id;
      pos_x = walked lib d.pos_x (d.rand (d.rands + 1)) 100 50;
      pos_y = walked lib d.pos_y (d.rand (d.rands + 2)) 60 30;
    } in
    elim (Bool-cases (d.rand d.rands % 5 == 0)) [
      | inl chats ↦
          rw (logged, chats, short)
            (
              chat said,
              (
                (
                  record { size_in = omega arith; type_in = omega arith },
                  id,
                  length-write_bytes chat_broadcast_request.chat 0 full,
                ),
                (refl, refl),
              ),
              refl,
            )
      | inr walks ↦
          rw (logged, walks)
            (
              move step,
              (
                (
                  record { size_in = omega arith; type_in = omega arith },
                  id,
                  floats _ _,
                  floats _ _,
                ),
                (refl, refl),
              ),
              refl,
            )
    ]
