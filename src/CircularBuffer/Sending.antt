-- ===== src/CircularBuffer/Sending.antt =====
-- A new buffer, a reset one, and `GetBufferStart` with `GetContiguiousBytes`, by which a send reads
-- in place.
use easy_game_server.Prelude.{
  ℕ, ◌+◌, ◌^◌, ◌≤◌, ◌<◌, ◌≡◌, Option, none, some, List, [], length, arith, take, region,
}
use easy_game_server.CircularBuffer.{CircularBuffer, init, get_buffer_start, get_contiguous_bytes}
use easy_game_server.CircularBuffer.Invariant.{IsValid, RegionB, contents, length-contents}
use easy_game_server.CircularBuffer.Regions.{take-contents_a}

pub init-IsValid :
    (block : List ℕ) → length block < 2 ^ 31 → IsValid (init block) × (contents (init block) ≡ [])
unfolding init
init-IsValid block h = ground arith

-- Where bytes are held, `GetBufferStart` is inside the block, `GetContiguiousBytes` is at least 1,
-- and that many bytes there are the oldest of the bytes held.
pub get_buffer_start_lem :
    {b : CircularBuffer}
    → IsValid b
    → 0 < length (contents b)
    → (get_buffer_start b ≡ some b.a_region_pointer)
      × (0 < get_contiguous_bytes b)
      × (b.a_region_pointer + get_contiguous_bytes b ≤ length b.buffer)
      × (region b.buffer b.a_region_pointer (get_contiguous_bytes b)
          ≡ take (get_contiguous_bytes b) (contents b))
unfolding get_buffer_start get_contiguous_bytes
get_buffer_start_lem {b} v h = go b.b_region_pointer v.b_in
  where
    go :
        (q : Option ℕ)
        → RegionB q b.a_region_pointer b.a_region_size b.b_region_size b.buffer_end
        → let c = record b { b_region_pointer = q } in
          (get_buffer_start c ≡ some b.a_region_pointer)
          × (0 < get_contiguous_bytes c)
          × (b.a_region_pointer + get_contiguous_bytes c ≤ length b.buffer)
          × (region b.buffer b.a_region_pointer (get_contiguous_bytes c)
              ≡ take (get_contiguous_bytes c) (contents b))
    go none k = ground (arith, v, length-contents v, take-contents_a b.a_region_size v)
    go (some p) k = ground (arith, v, length-contents v, take-contents_a b.a_region_size v)

-- So are fewer bytes there.
pub get_buffer_start-take :
    {b : CircularBuffer} (k p : ℕ)
    → IsValid b
    → k ≤ get_contiguous_bytes b
    → get_buffer_start b ≡ some p
    → region b.buffer p k ≡ take k (contents b)
unfolding get_buffer_start get_contiguous_bytes
get_buffer_start-take {b} k p v h e = go b.b_region_pointer v.b_in h e
  where
    go :
        (q : Option ℕ)
        → RegionB q b.a_region_pointer b.a_region_size b.b_region_size b.buffer_end
        → let c = record b { b_region_pointer = q } in
          k ≤ get_contiguous_bytes c
          → get_buffer_start c ≡ some p
          → region b.buffer p k ≡ take k (contents b)
    go none j h' e' = ground (arith, v, take-contents_a k v)
    go (some r) j h' e' = ground (arith, v, take-contents_a k v)
