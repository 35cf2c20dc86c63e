-- ===== src/ProducerConsumerQueue/Fifo.antt =====
-- What `ProducerConsumerQueue` promises: a first-in first-out queue of at most `q_size` items.
use easy_game_server.Prelude.{
  ℕ, ◌==◌, if◌then◌else◌, Bool, true, false, Option, none, some, List, [], ◌∷◌, ◌++◌, length,
}
use easy_game_server.ProducerConsumerQueue.{Attempt, sleeps, finishes}

abbrev pub produce {ℓ} : {A : Type ℓ} → ℕ → List A → A → Bool → Attempt (Bool × List A)
produce q_size items item wait =
    if length items == q_size
    then (if wait then sleeps else finishes (false, items))
    else finishes (true, items ++ (item ∷ []))

abbrev pub consume {ℓ} : {A : Type ℓ} → List A → Bool → Attempt (Option A × List A)
consume [] wait = if wait then sleeps else finishes (none, [])
consume (item ∷ items) wait = finishes (some item, items)
