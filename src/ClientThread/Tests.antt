-- ===== src/ClientThread/Tests.antt =====
-- Two sockets wait in a queue of three places.
use easy_game_server.Prelude.{ℕ, suc, length, ◌<◌, ◌≡◌, refl, true, some, [], ◌∷◌, replicate, arith}
use easy_game_server.ProducerConsumerQueue.{ProducerConsumerQueue}
use easy_game_server.ProducerConsumerQueue.Refine.{IsValid, contents}
use easy_game_server.ClientSession.{Socket, starts_recv}
use easy_game_server.ClientManager.{ClientManager}
use easy_game_server.ClientThread.{turns}
use easy_game_server.ClientThread.Accepting.{leaving, turns_accepts}
use easy_game_server.ClientThread.Connecting.{flushed, with_clients}

abbrev socket : ℕ → Socket
socket handle = record { handle = handle; answers = λ _. true; calls = 0 }

abbrev waiting : ProducerConsumerQueue Socket
waiting = record {
  queue_array = socket 9 ∷ socket 4 ∷ socket 5 ∷ [];
  occupied_size = 2;
  queue_offset = 2;
}

waiting-IsValid : IsValid 3 waiting
waiting-IsValid = omega arith

turns_accepts_example :
    (rest : ProducerConsumerQueue Socket) × IsValid 3 rest
    × (contents rest ≡ [])
    × ((fuel : ℕ) (m : ClientManager)
        → 2 < fuel
        → turns 3 (replicate 8 0) (replicate 8 0) fuel (record { pending = waiting; manager = m })
          ≡ some (
              leaving rest (
                flushed
                  (replicate 8 0)
                  (replicate 8 0)
                  ((length m.sessions, starts_recv 0 8)
                    ∷ (suc (length m.sessions), starts_recv 0 8)
                    ∷ [])
                  (with_clients (replicate 8 0) (replicate 8 0) m (socket 5 ∷ socket 9 ∷ [])))))
turns_accepts_example =
    turns_accepts 3 (replicate 8 0) (replicate 8 0) (socket 5 ∷ socket 9 ∷ []) waiting
      waiting-IsValid refl (omega arith)
