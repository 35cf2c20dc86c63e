-- ===== src/Startup/Tests.antt =====
-- A queue with all its places taken but one, and two clients that connect.
use easy_game_server.Prelude.{◌≡◌, true, none, some, List, [], ◌∷◌, replicate, arith, Option}
use easy_game_server.ProducerConsumerQueue.{ProducerConsumerQueue, sleeps}
use easy_game_server.ProducerConsumerQueue.Refine.{IsValid}
use easy_game_server.ClientSession.{Socket}
use easy_game_server.Startup.{accepts_all}
use easy_game_server.Startup.Stalling.{items, accepts_all_lem}

abbrev socket : Socket
socket = record { handle = 5; answers = λ _. true; calls = 0 }

abbrev crowded : ProducerConsumerQueue Socket
crowded = record { queue_array = replicate 100 socket; occupied_size = 99; queue_offset = 7 }

crowded-IsValid : IsValid 100 crowded
crowded-IsValid = omega arith

abbrev given : List (Option Socket)
given = some socket ∷ none ∷ some socket ∷ []

accepts_all_lem_example : items (accepts_all crowded given) ≡ sleeps
accepts_all_lem_example = accepts_all_lem given crowded crowded-IsValid
