-- ===== src/CircularBuffer/Removing.antt =====
-- `Remove` against the queue of the buffer's bytes.
use easy_game_server.Prelude.{
  ℕ, ◌+◌, ◌-◌, ◌≤◌, ◌<◌, ◌≡◌, refl, some, arith, min, drop, dec_lt, Returns, Returns_mono,
}
use easy_game_server.CircularBuffer.{CircularBuffer, remove, switch_regions, advance_a, advance_b}
use easy_game_server.CircularBuffer.Invariant.{IsValid, contents}
use easy_game_server.CircularBuffer.Regions.{b_pointer}
use easy_game_server.CircularBuffer.Switching.{
  Drops-all, switch_regions-advance_a, switch_regions-advance_b,
}

remove_from_a :
    (b : CircularBuffer) (len : ℕ)
    → len ≤ b.a_region_size
    → remove b len ≡ switch_regions (advance_a b len)
unfolding remove
remove_from_a b len h = ground arith

remove_all_a :
    (b : CircularBuffer) (len : ℕ)
    → b.a_region_size ≤ len
    → b.b_region_size ≡ 0
    → remove b len ≡ switch_regions (advance_a b b.a_region_size)
unfolding remove
remove_all_a b len h e = ground arith

remove_from_b :
    (b : CircularBuffer) (len k : ℕ)
    → b.a_region_size < len
    → 0 < b.b_region_size
    → k ≡ min (len - b.a_region_size) b.b_region_size
    → b.b_region_pointer ≡ some 0
    → remove b len ≡ switch_regions (advance_b (advance_a b b.a_region_size) 0 k)
unfolding remove
remove_from_b b len k h pos e f = ground arith

-- `Remove` leaves a valid buffer of the same size without the oldest `len` bytes, or without any
-- if it holds no more than `len`.
pub remove_refines :
    {b : CircularBuffer} (len : ℕ)
    → IsValid b
    → Returns
        (remove b len)
        λ c. IsValid c × (contents c ≡ drop len (contents b)) × (c.buffer_end ≡ b.buffer_end)
remove_refines {b} len v = elim (dec_lt b.a_region_size len) [
  | no within ↦
      rw (remove_from_a b len (omega arith)) (switch_regions-advance_a len v (omega arith))
  | yes beyond ↦ elim (dec_lt 0 b.b_region_size) [
    | no only_a ↦ rw (remove_all_a b len (omega arith) (omega arith)) (
        Returns_mono (switch_regions (advance_a b b.a_region_size)) _ _
          (switch_regions-advance_a b.a_region_size v (omega arith))
          (λ c d. Drops-all b.a_region_size len c v (omega arith) (omega arith) d))
    | yes both ↦ elim (dec_lt b.b_region_size (len - b.a_region_size)) [
      | no part ↦
          rw
            (remove_from_b b len (len - b.a_region_size) beyond both (omega arith)
              (b_pointer v both))
            (switch_regions-advance_b len (len - b.a_region_size) v (omega arith) (omega arith))
      | yes whole ↦
          rw (remove_from_b b len b.b_region_size beyond both (omega arith) (b_pointer v both)) (
            Returns_mono
              (switch_regions (advance_b (advance_a b b.a_region_size) 0 b.b_region_size)) _ _
              (switch_regions-advance_b (b.a_region_size + b.b_region_size) b.b_region_size v refl
                (omega arith))
              λ c d.
                Drops-all (b.a_region_size + b.b_region_size) len c v (omega arith) (omega arith) d)
    ]
  ]
]
