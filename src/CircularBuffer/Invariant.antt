-- ===== src/CircularBuffer/Invariant.antt =====
-- The representation invariant of `CircularBuffer`, and the bytes that a buffer holds.
use easy_game_server.Prelude.{
  ℕ, ◌+◌, ◌^◌, ◌≤◌, ◌<◌, ◌≡◌, Option, none, some, List, ◌++◌, length, length-append, arith, region,
  length-region,
}
use easy_game_server.CircularBuffer.{CircularBuffer, get_stored_size}

-- Between calls region B, if it is set up, starts at the block's start and ends before region A,
-- which leaves less room behind it than before it.
abbrev pub RegionB : Option ℕ → ℕ → ℕ → ℕ → ℕ → Type 0
RegionB none a_pointer a_size b_size size = b_size ≡ 0
RegionB (some p) a_pointer a_size b_size size =
    (p ≡ 0) × (b_size ≤ a_pointer) × (0 < a_size) × (size < a_pointer + (a_pointer + a_size))

-- Region A is empty only at the block's start, in a buffer with no region B.
pub record IsValid (b : CircularBuffer) : Type 0 where
  pub whole : b.buffer_end ≡ length b.buffer
  pub small : b.buffer_end < 2 ^ 31
  pub a_in : b.a_region_pointer + b.a_region_size ≤ b.buffer_end
  pub a_empty : b.a_region_size ≡ 0 → b.a_region_pointer ≡ 0
  pub b_in :
      RegionB b.b_region_pointer b.a_region_pointer b.a_region_size b.b_region_size b.buffer_end

-- The bytes of region B follow those of region A.
abbrev pub contents : CircularBuffer → List ℕ
contents b = region b.buffer b.a_region_pointer b.a_region_size ++ region b.buffer 0 b.b_region_size

-- What the tactics need of region B in every case.
pub b_size-le : {b : CircularBuffer} → IsValid b → b.b_region_size ≤ b.a_region_pointer
b_size-le {b} v = go b.b_region_pointer v.b_in
  where
    go :
        (q : Option ℕ)
        → RegionB q b.a_region_pointer b.a_region_size b.b_region_size b.buffer_end
        → b.b_region_size ≤ b.a_region_pointer
    go none h = omega arith
    go (some p) h = omega arith

pub length-contents :
    {b : CircularBuffer} → IsValid b → length (contents b) ≡ b.a_region_size + b.b_region_size
length-contents {b} v = omega (
  arith,
  v.whole,
  b_size-le v,
  length-append (region b.buffer b.a_region_pointer b.a_region_size)
      (region b.buffer 0 b.b_region_size),
  length-region b.buffer b.a_region_pointer b.a_region_size (omega arith),
  length-region b.buffer 0 b.b_region_size (omega (arith, b_size-le v)),
)

pub get_stored_size-eq-length :
    {b : CircularBuffer} → IsValid b → get_stored_size b ≡ length (contents b)
unfolding get_stored_size
get_stored_size-eq-length v = omega (arith, length-contents v, b_size-le v)
