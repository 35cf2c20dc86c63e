-- ===== src/DummyClient/Tests.antt =====
-- A client of the load test with a login and a move, with a packet that is too long, and on a tick.
use easy_game_server.Prelude.{
  ℕ, ◌+◌, ◌-◌, ◌%◌, ◌^◌, ◌≡◌, inr, List, [], ◌∷◌, length, replicate, arith, true, crashes, returns,
  some, length-replicate, ◌*◌, codes,
}
use easy_game_server.PacketType.{login_result, move_broadcast_result}
use easy_game_server.TcpClient.Results.{Result, login, move}
use easy_game_server.DummyClient.{
  Library, DummyClient, recv_buf_size, start_player_id, take_packets, Action,
}
use easy_game_server.DummyClient.Extent.{take_packets_overflows}
use easy_game_server.DummyClient.Options.{main}
use easy_game_server.DummyClient.CommandLine.{IsCommandLine, AreConnecting, words, main_lem}

-- A processor whose `float`s are whole numbers, and a library that prints one figure.
abbrev whole : Library
whole = record {
  of_int = λ n. n;
  add_float = λ x y. (x + y) % 2 ^ 32;
  sub_float = λ x y. (x + 2 ^ 32 - y) % 2 ^ 32;
  decimal = λ n. (48 + n % 10) ∷ [];
}

abbrev dummy : DummyClient
dummy = record {
  read_buf = replicate recv_buf_size 0;
  logon = true;
  player_id = start_player_id;
  pos_x = 300;
  pos_y = 200;
  rand = λ k. k;
  rands = 2;
}

length-dummy : length dummy.read_buf ≡ recv_buf_size
length-dummy = length-replicate {A = ℕ} recv_buf_size 0

abbrev results : List Result
results =
    login (record login_result { player_id = 1001 })
    ∷ move (record move_broadcast_result { player_id = 1001; pos_x = 9 })
    ∷ []

-- 4097 bytes, one more than there is room for.
abbrev too_long : List ℕ
too_long = 1 ∷ 16 ∷ 2 ∷ 0 ∷ replicate 4093 0

take_packets_overflows_example : take_packets 1 dummy too_long ≡ some crashes
take_packets_overflows_example =
    take_packets_overflows 0 dummy too_long length-dummy
      (omega (arith, length-replicate {A = ℕ} 4093 0)) (omega arith) (inr (omega arith))
      (omega (arith, length-replicate {A = ℕ} 4093 0))

-- Two clients on a port that has more than 16 bits, in words of one letter for the values but that one.
abbrev digits : ℕ → List ℕ → ℕ
digits n [] = n
digits n (c ∷ text) = digits (10 * n + (c - 48)) text

abbrev options : List (List ℕ × List ℕ)
options =
    (codes "--port", codes "70000")
    ∷ (codes "--session", codes "2")
    ∷ (codes "--ip", codes "::1")
    ∷ []

options-IsCommandLine : IsCommandLine (codes "dummy") options
options-IsCommandLine = record {
  program_name = ground arith;
  ip_apart = ground arith;
  port_apart = ground arith;
  session_apart = ground arith;
}

main_lem_example :
    (clients : List (DummyClient × List Action)) × (main
        (digits 0)
        (λ text. true)
        whole
        (λ i k. 0)
        (replicate 4096 0)
        (codes "dummy" ∷ words options)
      ≡ returns (some clients))
    × AreConnecting (record { address = codes "::1"; port = 4464 }) clients 2
main_lem_example =
    main_lem (digits 0) (λ text. true) whole (λ i k. 0) (replicate 4096 0) (codes "dummy") options
      options-IsCommandLine (omega arith, (omega arith, (omega arith, tt)))
