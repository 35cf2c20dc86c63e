-- ===== src/ProducerConsumerQueue/Waking.antt =====
-- One thread that produces and one that consumes, both with the default of waiting, and what wakes
-- them: every interleaving of their steps.
use easy_game_server.Prelude.{
  ℕ, ◌^◌, ◌≤◌, ◌<◌, ◌≡◌, refl, ◌⊎◌, Option, none, some, Bool, true, false, List, [], ◌∷◌, ◌++◌,
  length, arith, append_assoc,
}
use easy_game_server.ProducerConsumerQueue.{
  ProducerConsumerQueue, Attempt, sleeps, finishes, init, produce, consume,
}
use easy_game_server.ProducerConsumerQueue.Refine.{
  IsValid, contents, length-contents, init-IsValid, produce_refines, consume_refines,
}

-- Where a thread stands. `entering` is before an attempt, `waking` between the release of the lock
-- and the call of `WakeConditionVariable`.
pub data Producer (A : Type 0) : Type 0 where
  outside : Producer A
  entering : A → Producer A
  sleeping : A → Producer A
  waking : Producer A

pub data Consumer : Type 0 where
  outside entering sleeping waking : Consumer

-- `produced` and `consumed` are what has gone through so far, oldest first.
pub record Threads (A : Type 0) : Type 0 where
  pub queue : ProducerConsumerQueue A
  pub producer : Producer A
  pub consumer : Consumer
  pub produced : List A
  pub consumed : List A

-- A thread's next step, or a wake-up that nobody asked for, which the condition variables allow.
-- An event that cannot happen where the thread stands changes nothing.
pub data Event (A : Type 0) : Type 0 where
  calls_produce : A → Event A
  attempts_produce wakes_consumer spurious_producer : Event A
  calls_consume attempts_consume wakes_producer spurious_consumer : Event A

module _ {A : Type 0} where
  abbrev produced_by : Threads A → A → Attempt (Bool × ProducerConsumerQueue A) → Threads A
  produced_by s item sleeps = record s { producer = Producer.sleeping item }
  produced_by s item (finishes (true, q)) = record s {
    queue = q;
    producer = Producer.waking;
    produced = s.produced ++ (item ∷ []);
  }
  produced_by s item (finishes (false, q)) = record s { queue = q; producer = Producer.outside }

  abbrev consumed_by : Threads A → Attempt (Option A × ProducerConsumerQueue A) → Threads A
  consumed_by s sleeps = record s { consumer = Consumer.sleeping }
  consumed_by s (finishes (some item, q)) = record s {
    queue = q;
    consumer = Consumer.waking;
    consumed = s.consumed ++ (item ∷ []);
  }
  consumed_by s (finishes (none, q)) = record s { queue = q; consumer = Consumer.outside }

  abbrev call_produce : Producer A → A → Producer A
  call_produce Producer.outside item = Producer.entering item
  call_produce p item = p

  abbrev wake_producer : Producer A → Producer A
  wake_producer (Producer.sleeping item) = Producer.entering item
  wake_producer p = p

abbrev call_consume : Consumer → Consumer
call_consume Consumer.outside = Consumer.entering
call_consume c = c

abbrev wake_consumer : Consumer → Consumer
wake_consumer Consumer.sleeping = Consumer.entering
wake_consumer c = c

module _ {A : Type 0} (q_size : ℕ) where
  attempt_produce : Threads A → Producer A → Threads A
  attempt_produce s (Producer.entering item) = produced_by s item (produce q_size s.queue item true)
  attempt_produce s p = s

  attempt_consume : Threads A → Consumer → Threads A
  attempt_consume s Consumer.entering = consumed_by s (consume q_size s.queue true)
  attempt_consume s c = s

  abbrev signal_consumer : Threads A → Producer A → Threads A
  signal_consumer s Producer.waking = record s {
    producer = Producer.outside;
    consumer = wake_consumer s.consumer;
  }
  signal_consumer s p = s

  abbrev signal_producer : Threads A → Consumer → Threads A
  signal_producer s Consumer.waking = record s {
    producer = wake_producer s.producer;
    consumer = Consumer.outside;
  }
  signal_producer s c = s

  unfoldable pub step : Threads A → Event A → Threads A
  unfolding attempt_produce attempt_consume
  step s (calls_produce item) = record s { producer = call_produce s.producer item }
  step s attempts_produce = attempt_produce s s.producer
  step s wakes_consumer = signal_consumer s s.producer
  step s spurious_producer = record s { producer = wake_producer s.producer }
  step s calls_consume = record s { consumer = call_consume s.consumer }
  step s attempts_consume = attempt_consume s s.consumer
  step s wakes_producer = signal_producer s s.consumer
  step s spurious_consumer = record s { consumer = wake_consumer s.consumer }

  unfoldable pub run : Threads A → List (Event A) → Threads A
  run s [] = s
  run s (event ∷ events) = run (step s event) events

  -- A producer sleeps only on a full queue, or while the consumer is about to wake it.
  abbrev SleepsFull : Producer A → ℕ → Consumer → Type 0
  SleepsFull (Producer.sleeping item) occupied c = (occupied ≡ q_size) ⊎ (c ≡ Consumer.waking)
  SleepsFull p occupied c = Unit

  abbrev SleepsEmpty : Consumer → ℕ → Producer A → Type 0
  SleepsEmpty Consumer.sleeping occupied p = (occupied ≡ 0) ⊎ (p ≡ Producer.waking)
  SleepsEmpty c occupied p = Unit

  record IsSound (s : Threads A) : Type 0 where
    pub valid : IsValid q_size s.queue
    pub conserved : s.consumed ++ contents s.queue ≡ s.produced
    pub sleeps_full : SleepsFull s.producer s.queue.occupied_size s.consumer
    pub sleeps_empty : SleepsEmpty s.consumer s.queue.occupied_size s.producer

  -- The same state, for a thread that stands at `p`.
  attempt_produce-IsSound :
      (s : Threads A) (p : Producer A)
      → IsSound (record s { producer = p })
      → IsSound (attempt_produce (record s { producer = p }) p)
  unfolding attempt_produce
  attempt_produce-IsSound s (Producer.entering item) v = ground (
    arith,
    v,
    produce_refines q_size item true v.valid,
    length-contents q_size v.valid,
    append_assoc s.consumed (contents s.queue) (item ∷ []),
  )
  attempt_produce-IsSound s p v = v

  attempt_consume-IsSound :
      (s : Threads A) (c : Consumer)
      → IsSound (record s { consumer = c })
      → IsSound (attempt_consume (record s { consumer = c }) c)
  unfolding attempt_consume
  attempt_consume-IsSound s Consumer.entering v = consumed (contents s.queue) refl
    where
      consumed :
          (items : List A)
          → contents s.queue ≡ items
          → IsSound (attempt_consume (record s { consumer = Consumer.entering }) Consumer.entering)
      consumed [] e =
          ground (arith, v, e, consume_refines q_size true v.valid, length-contents q_size v.valid)
      consumed (item ∷ items) e = ground (
        arith,
        v,
        e,
        consume_refines q_size true v.valid,
        length-contents q_size v.valid,
        append_assoc s.consumed (item ∷ []) items,
      )
  attempt_consume-IsSound s c v = v

  step-IsSound : (s : Threads A) (event : Event A) → IsSound s → IsSound (step s event)
  unfolding step
  step-IsSound s (calls_produce item) v = ground (arith, v)
  step-IsSound s attempts_produce v = attempt_produce-IsSound s s.producer v
  step-IsSound s wakes_consumer v = ground (arith, v)
  step-IsSound s spurious_producer v = ground (arith, v)
  step-IsSound s calls_consume v = ground (arith, v)
  step-IsSound s attempts_consume v = attempt_consume-IsSound s s.consumer v
  step-IsSound s wakes_producer v = ground (arith, v)
  step-IsSound s spurious_consumer v = ground (arith, v)

  run-IsSound : (events : List (Event A)) (s : Threads A) → IsSound s → IsSound (run s events)
  unfolding run
  run-IsSound [] s v = v
  run-IsSound (event ∷ events) s v = run-IsSound events (step s event) (step-IsSound s event v)

  abbrev pub start : A → Threads A
  start blank = record {
    queue = init q_size blank;
    producer = Producer.outside;
    consumer = Consumer.outside;
    produced = [];
    consumed = [];
  }

  start-IsSound : (blank : A) → 0 < q_size → q_size < 2 ^ 31 → IsSound (start blank)
  start-IsSound blank h k = ground (arith, init-IsValid q_size blank h k)

  -- Under every interleaving the consumer has had, in order, what the producer has put in, but for
  -- what the queue holds, which is at most `q_size` items.
  pub run_conserves :
      (events : List (Event A)) (blank : A)
      → 0 < q_size
      → q_size < 2 ^ 31
      → let s = run (start blank) events in
        (s.consumed ++ contents s.queue ≡ s.produced) × (length (contents s.queue) ≤ q_size)
  run_conserves events blank h k =
      let v = run-IsSound events (start blank) (start-IsSound blank h k) in
      ground (arith, v, length-contents q_size v.valid)

  -- No wake-up is lost: both threads are never asleep at once, a producer that sleeps while there is
  -- room is about to be woken by the consumer, and a consumer that sleeps while there are items by
  -- the producer.
  pub run_wakes :
      (events : List (Event A)) (blank item : A)
      → 0 < q_size
      → q_size < 2 ^ 31
      → let s = run (start blank) events in
        ¬ ((s.producer ≡ Producer.sleeping item) × (s.consumer ≡ Consumer.sleeping))
        × (s.producer ≡ Producer.sleeping item
            → s.queue.occupied_size < q_size
            → s.consumer ≡ Consumer.waking)
        × (s.consumer ≡ Consumer.sleeping
            → 0 < s.queue.occupied_size
            → s.producer ≡ Producer.waking)
  run_wakes events blank item h k =
      let v = run-IsSound events (start blank) (start-IsSound blank h k) in ground (arith, v)
