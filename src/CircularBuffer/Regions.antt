-- ===== src/CircularBuffer/Regions.antt =====
-- The bytes of a `CircularBuffer` as those of its two regions.
use easy_game_server.Prelude.{
  ℕ, ◌+◌, ◌≤◌, ◌<◌, ◌≡◌, refl, ap, ◌∙◌, Option, none, some, ◌++◌, arith, region, length-region,
  take, drop, take-append_le, take-append_add, drop-append_le, drop-append_add, take-region,
  drop-region,
}
use easy_game_server.CircularBuffer.{CircularBuffer}
use easy_game_server.CircularBuffer.Invariant.{IsValid, RegionB, contents}

-- The first `n` bytes lie in region A, or are all of it and the first bytes of region B.
pub take-contents_a :
    {b : CircularBuffer} (n : ℕ)
    → IsValid b
    → n ≤ b.a_region_size
    → take n (contents b) ≡ region b.buffer b.a_region_pointer n
take-contents_a {b} n v h =
    take-append_le n _ _ (
      omega
        (arith, v.whole, length-region b.buffer b.a_region_pointer b.a_region_size (omega arith)))
    ∙ take-region b.buffer b.a_region_pointer b.a_region_size n h

pub take-contents_b :
    {b : CircularBuffer} (n k : ℕ)
    → IsValid b
    → n ≡ b.a_region_size + k
    → k ≤ b.b_region_size
    → take n (contents b)
      ≡ region b.buffer b.a_region_pointer b.a_region_size ++ region b.buffer 0 k
take-contents_b {b} n k v e h =
    take-append_add n k _ _ (
      omega
        (arith, v.whole, length-region b.buffer b.a_region_pointer b.a_region_size (omega arith)))
    ∙ ap (λ t. region b.buffer b.a_region_pointer b.a_region_size ++ t)
        (take-region b.buffer 0 b.b_region_size k h)

pub drop-contents_a :
    {b : CircularBuffer} (n k : ℕ)
    → IsValid b
    → b.a_region_size ≡ n + k
    → drop n (contents b)
      ≡ region b.buffer (b.a_region_pointer + n) k ++ region b.buffer 0 b.b_region_size
drop-contents_a {b} n k v h =
    drop-append_le n _ _ (
      omega
        (arith, v.whole, length-region b.buffer b.a_region_pointer b.a_region_size (omega arith)))
    ∙ ap (λ t. t ++ region b.buffer 0 b.b_region_size)
        (drop-region b.buffer b.a_region_pointer b.a_region_size _ k n refl h)

pub drop-contents_b :
    {b : CircularBuffer} (n k m : ℕ)
    → IsValid b
    → n ≡ b.a_region_size + k
    → b.b_region_size ≡ k + m
    → drop n (contents b) ≡ region b.buffer k m
drop-contents_b {b} n k m v e h =
    drop-append_add n k _ _ (
      omega
        (arith, v.whole, length-region b.buffer b.a_region_pointer b.a_region_size (omega arith)))
    ∙ drop-region b.buffer 0 b.b_region_size k m k (omega arith) h

pub b_pointer : {b : CircularBuffer} → IsValid b → 0 < b.b_region_size → b.b_region_pointer ≡ some 0
b_pointer {b} v h = go b.b_region_pointer v.b_in
  where
    go :
        (q : Option ℕ)
        → RegionB q b.a_region_pointer b.a_region_size b.b_region_size b.buffer_end
        → q ≡ some 0
    go none k = absurd (omega arith)
    go (some p) k = ground arith
