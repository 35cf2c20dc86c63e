-- ===== src/ProducerConsumerQueue/Occupancy.antt =====
-- When an attempt waits, and how many items it leaves.
use easy_game_server.Prelude.{
  ℕ, suc, ◌-◌, ◌%◌, ◌<◌, ◌≡◌, some, true, arith, set, length-set, add_size, ◌==◌, if◌then◌else◌,
}
use easy_game_server.ProducerConsumerQueue.{
  ProducerConsumerQueue, sleeps, finishes, produce, consume,
}
use easy_game_server.ProducerConsumerQueue.Rotation.{rotate_first}
use easy_game_server.ProducerConsumerQueue.Refine.{IsValid}

module _ {A : Type 0} (q_size : ℕ) where
  pub produce_full :
      (q : ProducerConsumerQueue A) (item : A)
      → q.occupied_size ≡ q_size
      → produce q_size q item true ≡ sleeps
  unfolding produce
  produce_full q item e = ground arith

  pub produce_room :
      (q : ProducerConsumerQueue A) (item : A)
      → IsValid q_size q
      → q.occupied_size < q_size
      → (r : ProducerConsumerQueue A) × (produce q_size q item true ≡ finishes (true, r))
        × IsValid q_size r
        × (r.occupied_size ≡ suc q.occupied_size)
  unfolding produce
  produce_room q item v h =
      let r : ProducerConsumerQueue A = record q {
        queue_array = set q.queue_array (add_size q.queue_offset q.occupied_size % q_size) item;
        occupied_size = add_size q.occupied_size 1;
      } in
      (
        r,
        ground arith,
        ground (
          arith,
          v,
          length-set q.queue_array (add_size q.queue_offset q.occupied_size % q_size) item,
        ),
        ground (arith, v),
      )

  pub consume_item :
      (q : ProducerConsumerQueue A)
      → IsValid q_size q
      → 0 < q.occupied_size
      → (item : A) × (r : ProducerConsumerQueue A) × (consume q_size q true
          ≡ finishes (some item, r))
        × IsValid q_size r
        × (suc r.occupied_size ≡ q.occupied_size)
  unfolding consume
  consume_item q v h =
      let (x, e, _, _) = rotate_first q.queue_offset q.queue_array (omega (arith, v)) in
      let r : ProducerConsumerQueue A = record q {
        occupied_size = q.occupied_size - 1;
        queue_offset = if add_size q.queue_offset 1 == q_size then 0 else add_size q.queue_offset 1;
      } in
      (x, r, ground (arith, e), ground (arith, v), ground (arith, v))
