-- ===== src/CircularBuffer.antt =====
-- EasyServer/EasyServer/CircularBuffer.h and CircularBuffer.cpp: a byte buffer in two regions of one
-- block. The game client's own version is in `ClientBuffer`.
--
-- A pointer into the block is its distance from `mBuffer`; the null pointer is `none`. What a method
-- returns through `destbuf` is the list of the bytes it copies there, and `none` is the result
-- `false`.
pub mod Fifo
pub mod Invariant
pub mod Regions
pub mod Switching
pub mod Reading
pub mod Removing
pub mod Writing
pub mod Sending
pub mod Stream
mod Tests
use easy_game_server.Prelude.{
  ℕ, ◌+◌, ◌-◌, ltb, ◌==◌, leb, if◌then◌else◌, Bool, true, false, ◌&&◌, Option, none, some, List,
  ◌++◌, length, replicate, Outcome, returns, ◌>>=◌, ◌>>◌, assert, deref, add_size, sub_size, region,
  write_bytes,
}

pub record CircularBuffer : Type 0 where
  pub buffer : List ℕ
  pub buffer_end : ℕ
  pub a_region_pointer : ℕ
  pub a_region_size : ℕ
  pub b_region_pointer : Option ℕ
  pub b_region_size : ℕ

-- `new char[capacity]`: `buffer` is the block, with whatever it holds.
unfoldable pub init : List ℕ → CircularBuffer
init buffer = record {
  buffer = buffer;
  buffer_end = length buffer;
  a_region_pointer = 0;
  a_region_size = 0;
  b_region_pointer = none;
  b_region_size = 0;
}

unfoldable pub get_stored_size : CircularBuffer → ℕ
get_stored_size b = add_size b.a_region_size b.b_region_size

unfoldable pub get_contiguous_bytes : CircularBuffer → ℕ
get_contiguous_bytes b = if ltb 0 b.a_region_size then b.a_region_size else b.b_region_size

allocate_b : CircularBuffer → CircularBuffer
allocate_b b = record b { b_region_pointer = some 0 }

get_a_free_space : CircularBuffer → ℕ
get_a_free_space b = sub_size (sub_size b.buffer_end b.a_region_pointer) b.a_region_size

get_space_before_a : CircularBuffer → ℕ
get_space_before_a b = b.a_region_pointer

get_b_free_space : CircularBuffer → ℕ
get_b_free_space b = elim b.b_region_pointer [
  | none ↦ 0
  | some p ↦ sub_size (sub_size b.a_region_pointer p) b.b_region_size
]

-- The size returned, and the buffer: the call may set up region B.
unfoldable pub get_free_space_size : CircularBuffer → ℕ × CircularBuffer
unfolding allocate_b get_a_free_space get_space_before_a get_b_free_space
get_free_space_size b = elim b.b_region_pointer [
  | some p ↦ (get_b_free_space b, b)
  | none ↦
      if ltb (get_a_free_space b) (get_space_before_a b)
      then (get_b_free_space (allocate_b b), allocate_b b)
      else (get_a_free_space b, b)
]

-- Where the next bytes are to be written.
unfoldable pub get_buffer : CircularBuffer → ℕ
get_buffer b = elim b.b_region_pointer [
  | some p ↦ p + b.b_region_size
  | none ↦ b.a_region_pointer + b.a_region_size
]

unfoldable pub commit : CircularBuffer → ℕ → CircularBuffer
commit b len = elim b.b_region_pointer [
  | some p ↦ record b { b_region_size = add_size b.b_region_size len }
  | none ↦ record b { a_region_size = add_size b.a_region_size len }
]

-- Where the oldest bytes stand; it may be the null pointer.
unfoldable pub get_buffer_start : CircularBuffer → Option ℕ
get_buffer_start b = if ltb 0 b.a_region_size then some b.a_region_pointer else b.b_region_pointer

-- What of `cnt` bytes is taken from region A, by `Peek`, `Read` and `Remove`.
abbrev a_part : CircularBuffer → ℕ → ℕ
a_part b cnt =
    if ltb 0 b.a_region_size then (if ltb b.a_region_size cnt then b.a_region_size else cnt) else 0

-- `mARegionSize -= n ; mARegionPointer += n`, with `n` at most the size.
abbrev pub advance_a : CircularBuffer → ℕ → CircularBuffer
advance_a b n = record b {
  a_region_pointer = b.a_region_pointer + n;
  a_region_size = b.a_region_size - n;
}

-- `mBRegionSize -= n ; mBRegionPointer += n`, with `n` at most the size.
abbrev pub advance_b : CircularBuffer → ℕ → ℕ → CircularBuffer
advance_b b p n = record b { b_region_pointer = some (p + n); b_region_size = b.b_region_size - n }

-- `cnt` never grows past `bytes`, so the subtraction does not stop at 0.
unfoldable pub peek : CircularBuffer → ℕ → Outcome (Option (List ℕ))
peek b bytes =
    if ltb (add_size b.a_region_size b.b_region_size) bytes
    then returns none
    else let a_read = a_part b bytes in
      let cnt = bytes - a_read in
      let from_a = region b.buffer b.a_region_pointer a_read in
      if ltb 0 cnt && ltb 0 b.b_region_size
      then (assert (leb cnt b.b_region_size)
          >> (deref b.b_region_pointer >>= λ p. returns (some (from_a ++ region b.buffer p cnt))))
      else (assert (cnt == 0) >> returns (some from_a))

-- The end of `Read` and of `Remove`: when region A is used up, region B becomes region A.
unfoldable pub switch_regions : CircularBuffer → Outcome CircularBuffer
switch_regions b =
    if b.a_region_size == 0
    then (if ltb 0 b.b_region_size
        then (deref b.b_region_pointer >>= λ p. returns (record b {
          buffer =
              if p == 0
              then b.buffer
              else write_bytes b.buffer 0 (region b.buffer p b.b_region_size);
          a_region_pointer = 0;
          a_region_size = b.b_region_size;
          b_region_pointer = none;
          b_region_size = 0;
        }))
        else returns (record b {
          a_region_pointer = 0;
          a_region_size = 0;
          b_region_pointer = none;
          b_region_size = 0;
        }))
    else returns b

unfoldable pub read : CircularBuffer → ℕ → Outcome (Option (List ℕ) × CircularBuffer)
read b bytes =
    if ltb (add_size b.a_region_size b.b_region_size) bytes
    then returns (none, b)
    else let a_read = a_part b bytes in
      let cnt = bytes - a_read in
      let from_a = region b.buffer b.a_region_pointer a_read in
      let b' = advance_a b a_read in
      if ltb 0 cnt && ltb 0 b.b_region_size
      then (assert (leb cnt b.b_region_size)
          >> (deref b.b_region_pointer >>= λ p. switch_regions (advance_b b' p cnt) >>= λ c.
              returns (some (from_a ++ region b.buffer p cnt), c)))
      else (assert (cnt == 0) >> (switch_regions b' >>= λ c. returns (some from_a, c)))

-- `Write` into region B, which starts at `p`.
write_b : CircularBuffer → ℕ → List ℕ → Bool × CircularBuffer
unfolding get_b_free_space
write_b b p source = if ltb (get_b_free_space b) (length source) then (false, b) else (
  true,
  record b {
    buffer = write_bytes b.buffer (p + b.b_region_size) source;
    b_region_size = add_size b.b_region_size (length source);
  },
)

-- The list is `data[0 .. bytes)`. A refused write may have set up region B.
unfoldable pub write : CircularBuffer → List ℕ → Bool × CircularBuffer
unfolding write_b allocate_b get_a_free_space get_space_before_a
write b source = elim b.b_region_pointer [
  | some p ↦ write_b b p source
  | none ↦
      if ltb (get_a_free_space b) (get_space_before_a b)
      then write_b (allocate_b b) 0 source
      else if ltb (get_a_free_space b) (length source)
      then (false, b)
      else (
        true,
        record b {
          buffer = write_bytes b.buffer (b.a_region_pointer + b.a_region_size) source;
          a_region_size = add_size b.a_region_size (length source);
        },
      )
]

unfoldable pub remove : CircularBuffer → ℕ → Outcome CircularBuffer
remove b len =
    let a_remove = a_part b len in
    let cnt = len - a_remove in
    let b' = advance_a b a_remove in
    if ltb 0 cnt && ltb 0 b.b_region_size
    then (deref b.b_region_pointer >>= λ p.
        switch_regions (advance_b b' p (if ltb b.b_region_size cnt then b.b_region_size else cnt)))
    else switch_regions b'
