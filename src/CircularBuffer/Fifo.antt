-- ===== src/CircularBuffer/Fifo.antt =====
-- What `CircularBuffer` promises: a queue of bytes, oldest first.
use easy_game_server.Prelude.{ℕ, ltb, if◌then◌else◌, Option, none, some, List, length, take, drop}

abbrev pub Fifo : Type 0
Fifo = List ℕ

abbrev pub peek : Fifo → ℕ → Option (List ℕ)
peek q bytes = if ltb (length q) bytes then none else some (take bytes q)

abbrev pub read : Fifo → ℕ → Option (List ℕ) × Fifo
read q bytes = if ltb (length q) bytes then (none, q) else (some (take bytes q), drop bytes q)
