-- ===== src/ProducerConsumerQueue/Tests.antt =====
-- A queue of three places whose items go round the array's end.
use easy_game_server.Prelude.{ℕ, ◌≤◌, ◌<◌, ◌≡◌, refl, true, List, [], ◌∷◌, ◌++◌, length, arith}
use easy_game_server.ProducerConsumerQueue.{ProducerConsumerQueue, finishes, init, produce, consume}
use easy_game_server.ProducerConsumerQueue.Refine.{IsValid, contents}
use easy_game_server.ProducerConsumerQueue.Waking.{
  Producer, Consumer, Event, calls_produce, attempts_produce, wakes_consumer, calls_consume,
  attempts_consume, start, step, run, run_conserves, run_wakes,
}

abbrev wrapped : ProducerConsumerQueue ℕ
wrapped = record { queue_array = 9 ∷ 7 ∷ 8 ∷ []; occupied_size = 2; queue_offset = 2 }

wrapped-IsValid : IsValid 3 wrapped
wrapped-IsValid = omega arith

contents-wrapped : contents wrapped ≡ 8 ∷ 9 ∷ []
contents-wrapped = refl

produce-wrapped :
    produce 3 wrapped 5 true
    ≡ finishes (true, record { queue_array = 9 ∷ 5 ∷ 8 ∷ []; occupied_size = 3; queue_offset = 2 })
unfolding produce
produce-wrapped = refl

-- The second item waits for room until the first is consumed.
abbrev schedule : List (Event ℕ)
schedule =
    calls_produce 1
    ∷ attempts_produce
    ∷ wakes_consumer
    ∷ calls_produce 2
    ∷ attempts_produce
    ∷ calls_consume
    ∷ attempts_consume
    ∷ []

run-schedule :
    let s = run 1 (start 1 0) schedule in
    (s.producer ≡ Producer.sleeping 2) × (s.consumer ≡ Consumer.waking) × (s.consumed ≡ 1 ∷ [])
unfolding run step produce consume init
run-schedule = (refl, refl, refl)

run_conserves_example :
    let s = run 1 (start 1 0) schedule in
    (s.consumed ++ contents s.queue ≡ s.produced) × (length (contents s.queue) ≤ 1)
run_conserves_example = run_conserves 1 schedule 0 (omega arith) (omega arith)

run_wakes_example :
    let s = run 1 (start 1 0) schedule in
    ¬ ((s.producer ≡ Producer.sleeping 2) × (s.consumer ≡ Consumer.sleeping))
    × (s.producer ≡ Producer.sleeping 2 → s.queue.occupied_size < 1 → s.consumer ≡ Consumer.waking)
    × (s.consumer ≡ Consumer.sleeping → 0 < s.queue.occupied_size → s.producer ≡ Producer.waking)
run_wakes_example = run_wakes 1 schedule 0 2 (omega arith) (omega arith)
