-- ===== src/CircularBuffer/Switching.antt =====
-- What `Read` and `Remove` do when they have taken their bytes: regions are advanced and switched.
use easy_game_server.Prelude.{
  ℕ, ◌+◌, ◌-◌, ◌^◌, ◌≤◌, ◌<◌, ◌≡◌, refl, Option, none, some, List, ◌++◌, [], length, arith, region,
  length-region, drop, drop_all, Returns, Returns_mono, region-zero-write_bytes, append-nil,
  length-write_bytes,
}
use easy_game_server.CircularBuffer.{CircularBuffer, switch_regions, advance_a, advance_b}
use easy_game_server.CircularBuffer.Invariant.{
  IsValid, RegionB, contents, b_size-le, length-contents,
}
use easy_game_server.CircularBuffer.Regions.{drop-contents_a, drop-contents_b}

-- What region B holds while `Read` and `Remove` advance its pointer.
abbrev BInside : Option ℕ → ℕ → ℕ → ℕ → ℕ → Type 0
BInside none a_pointer a_size b_size size = b_size ≡ 0
BInside (some p) a_pointer a_size b_size size =
    (p + b_size ≤ size)
    × (0 < a_size → (p ≡ 0) × (b_size ≤ a_pointer) × (size < a_pointer + (a_pointer + a_size)))

abbrev region_b : List ℕ → Option ℕ → ℕ → List ℕ
region_b buf none n = []
region_b buf (some p) n = region buf p n

-- A buffer from which bytes have been taken, before its regions are switched.
record IsAdvanced (c : CircularBuffer) : Type 0 where
  whole : c.buffer_end ≡ length c.buffer
  small : c.buffer_end < 2 ^ 31
  a_in : c.a_region_pointer + c.a_region_size ≤ c.buffer_end
  b_in : BInside c.b_region_pointer c.a_region_pointer c.a_region_size c.b_region_size c.buffer_end

switch_regions_lem :
    (c : CircularBuffer)
    → IsAdvanced c
    → Returns (switch_regions c) λ d.
      IsValid d
      × (contents d
          ≡ region c.buffer c.a_region_pointer c.a_region_size
            ++ region_b c.buffer c.b_region_pointer c.b_region_size)
      × (d.buffer_end ≡ c.buffer_end)
unfolding switch_regions
switch_regions_lem c v = go c.b_region_pointer v.b_in
  where
    go :
        (q : Option ℕ)
        → BInside q c.a_region_pointer c.a_region_size c.b_region_size c.buffer_end
        → Returns (switch_regions (record c { b_region_pointer = q })) λ d.
          IsValid d
          × (contents d
              ≡ region c.buffer c.a_region_pointer c.a_region_size
                ++ region_b c.buffer q c.b_region_size)
          × (d.buffer_end ≡ c.buffer_end)
    go none h = ground (arith, v)
    go (some p) h = ground (
      arith,
      v,
      append-nil (region c.buffer p c.b_region_size),
      length-region c.buffer p c.b_region_size,
      length-write_bytes c.buffer 0 (region c.buffer p c.b_region_size),
      region-zero-write_bytes c.buffer (region c.buffer p c.b_region_size) c.b_region_size,
    )

-- The state after region A has given up `n` bytes, and region B nothing.
advance_a-IsAdvanced :
    {b : CircularBuffer} (n : ℕ) → IsValid b → n ≤ b.a_region_size → IsAdvanced (advance_a b n)
advance_a-IsAdvanced {b} n v h = go b.b_region_pointer v.b_in
  where
    go :
        (q : Option ℕ)
        → RegionB q b.a_region_pointer b.a_region_size b.b_region_size b.buffer_end
        → IsAdvanced (advance_a (record b { b_region_pointer = q }) n)
    go none k = ground (arith, v)
    go (some p) k = ground (arith, v)

-- The state after region A has given up all its bytes, and region B `n`.
advance_b-IsAdvanced :
    {b : CircularBuffer} (p n : ℕ)
    → IsValid b
    → p ≡ 0
    → n ≤ b.b_region_size
    → IsAdvanced (advance_b (advance_a b b.a_region_size) p n)
advance_b-IsAdvanced {b} p n v e h = ground (arith, v, b_size-le v)

region_b-pointer :
    {b : CircularBuffer}
    → IsValid b
    → region_b b.buffer b.b_region_pointer b.b_region_size ≡ region b.buffer 0 b.b_region_size
region_b-pointer {b} v = go b.b_region_pointer v.b_in
  where
    go :
        (q : Option ℕ)
        → RegionB q b.a_region_pointer b.a_region_size b.b_region_size b.buffer_end
        → region_b b.buffer q b.b_region_size ≡ region b.buffer 0 b.b_region_size
    go none k = ground (arith)
    go (some p) k = ground (arith)

-- What `Read` and `Remove` leave when they take `n` bytes.
abbrev pub Drops : CircularBuffer → ℕ → CircularBuffer → Type 0
Drops b n c = IsValid c × (contents c ≡ drop n (contents b)) × (c.buffer_end ≡ b.buffer_end)

pub switch_regions-advance_a :
    {b : CircularBuffer} (n : ℕ)
    → IsValid b
    → n ≤ b.a_region_size
    → Returns (switch_regions (advance_a b n)) (Drops b n)
switch_regions-advance_a {b} n v h =
    Returns_mono (switch_regions (advance_a b n)) _ (Drops b n)
      (switch_regions_lem _ (advance_a-IsAdvanced n v h))
      λ c d. ground (arith, d, region_b-pointer v, drop-contents_a n (b.a_region_size - n) v)

pub switch_regions-advance_b :
    {b : CircularBuffer} (n k : ℕ)
    → IsValid b
    → n ≡ b.a_region_size + k
    → k ≤ b.b_region_size
    → Returns (switch_regions (advance_b (advance_a b b.a_region_size) 0 k)) (Drops b n)
switch_regions-advance_b {b} n k v e h =
    Returns_mono (switch_regions (advance_b (advance_a b b.a_region_size) 0 k)) _ (Drops b n)
      (switch_regions_lem _ (advance_b-IsAdvanced 0 k v refl h))
      λ c d. ground (arith, d, drop-contents_b n k (b.b_region_size - k) v)

-- Dropping what is held or more leaves nothing.
pub Drops-all :
    {b : CircularBuffer} (n m : ℕ) (c : CircularBuffer)
    → IsValid b
    → b.a_region_size + b.b_region_size ≤ n
    → n ≤ m
    → Drops b n c
    → Drops b m c
Drops-all {b} n m c v h k d =
    ground (arith, d, drop_all n (contents b), drop_all m (contents b), length-contents v)
