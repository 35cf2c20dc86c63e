-- ===== src/DummyClient/Reading.antt =====
-- What the clients of the load test do with the results that the server sends.
use easy_game_server.Prelude.{ℕ, ◌<◌, ◌≡◌, List, [], ◌∷◌, ◌++◌, length, take, ◌⊎◌, ◌^◌}
use easy_game_server.PacketType.{header_of_bytes}
use easy_game_server.TcpClient.Results.{Result, login, chat, move, result_header, result_bytes}
use easy_game_server.DummyClient.{DummyClient, Action, post_read_header, logged_on, move_done}

-- What a result does: a login puts the first tick off, a move of the own player sets its position.
abbrev pub served : DummyClient → Result → DummyClient × List Action
served d (login p) = logged_on d
served d (chat p) = (d, [])
served d (move p) = (move_done d p, [])

-- The header and the bytes of the result are in the buffer.
abbrev Holds : DummyClient → Result → Type 0
Holds d r =
    (header_of_bytes (take 4 d.read_buf) ≡ result_header r)
    × (take (length (result_bytes r)) d.read_buf ≡ result_bytes r)

-- The buffer afterwards is filled with 0 and waits for the next header.
abbrev pub next : DummyClient × List Action → DummyClient × List Action
next (d, effects) = ((post_read_header d).0, effects ++ (post_read_header d).1)

-- Results one after the other.
unfoldable pub all_served : DummyClient → List Result → DummyClient × List Action
all_served d [] = (d, [])
all_served d (r ∷ rs) =
    let (d', effects) = next (served d r) in
    let (d'', later) = all_served d' rs in (d'', effects ++ later)

-- Bytes that make no whole packet.
abbrev pub IsPart : List ℕ → Type 0
IsPart rest =
    (length rest < 4)
    ⊎ ((length rest < (header_of_bytes (take 4 rest)).size)
        × ((header_of_bytes (take 4 rest)).size < 2 ^ 16))
