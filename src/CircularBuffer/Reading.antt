-- ===== src/CircularBuffer/Reading.antt =====
-- `Peek` and `Read` against the queue of the buffer's bytes.
use easy_game_server.Prelude.{
  List, ◌≡◌, Returns_value, ap, ◌∙◌, length-append, take-append_le, take_all, drop-append_add, ℕ,
  ◌+◌, ◌-◌, ◌≤◌, ◌<◌, ◌≡◌, Option, none, some, ◌++◌, arith, region, dec_lt, Returns, Returns->>=,
  length, ◌>>=◌, returns,
}
use easy_game_server.CircularBuffer.{
  CircularBuffer, peek, read, switch_regions, advance_a, advance_b,
}
use easy_game_server.CircularBuffer.Invariant.{
  IsValid, RegionB, contents, b_size-le, length-contents,
}
use easy_game_server.CircularBuffer.Regions.{take-contents_a, take-contents_b, b_pointer}
use easy_game_server.CircularBuffer.Switching.{
  Drops, switch_regions-advance_a, switch_regions-advance_b,
}
use easy_game_server.CircularBuffer.Fifo

-- `Peek` fails exactly when fewer than `bytes` bytes are held, and otherwise returns the oldest `bytes`
-- bytes. No assertion fails.
pub peek_refines :
    {b : CircularBuffer} (bytes : ℕ)
    → IsValid b
    → peek b bytes ≡ returns (Fifo.peek (contents b) bytes)
unfolding peek
peek_refines {b} bytes v = go b.b_region_pointer v.b_in
  where
    go :
        (q : Option ℕ)
        → RegionB q b.a_region_pointer b.a_region_size b.b_region_size b.buffer_end
        → peek (record b { b_region_pointer = q }) bytes ≡ returns (Fifo.peek (contents b) bytes)
    go none h = ground (arith, take-contents_a bytes v, length-contents v, b_size-le v)
    go (some p) h = ground (
      arith,
      take-contents_a bytes v,
      take-contents_b bytes (bytes - b.a_region_size) v,
      length-contents v,
      b_size-le v,
    )

-- Bytes within region A.
read_from_a :
    {b : CircularBuffer} (bytes : ℕ)
    → IsValid b
    → bytes ≤ b.a_region_size
    → read b bytes ≡ (
        switch_regions (advance_a b bytes) >>= λ c.
        returns (some (region b.buffer b.a_region_pointer bytes), c))
unfolding read
read_from_a {b} bytes v h = ground (arith, b_size-le v)

read_from_b :
    {b : CircularBuffer} (bytes p : ℕ)
    → IsValid b
    → b.a_region_size < bytes
    → bytes ≤ b.a_region_size + b.b_region_size
    → b.b_region_pointer ≡ some p
    → read b bytes ≡ (
        switch_regions (advance_b (advance_a b b.a_region_size) p (bytes - b.a_region_size))
        >>= λ c. returns (
          some (
              region b.buffer b.a_region_pointer b.a_region_size
              ++ region b.buffer p (bytes - b.a_region_size)),
          c,
        ))
unfolding read
read_from_b {b} bytes p v h k e = ground (arith, b_size-le v)

-- `Read` fails, and changes nothing, exactly when fewer than `bytes` bytes are held. Otherwise it
-- returns the oldest `bytes` bytes and leaves a valid buffer of the same size with the others. No
-- assertion fails.
pub read_refines :
    {b : CircularBuffer} (bytes : ℕ)
    → IsValid b
    → Returns (read b bytes) λ (out, c).
      IsValid c
      × ((out, contents c) ≡ Fifo.read (contents b) bytes)
      × (c.buffer_end ≡ b.buffer_end)
      × (out ≡ none → c ≡ b)
unfolding read
read_refines {b} bytes v = elim (dec_lt (b.a_region_size + b.b_region_size) bytes) [
  | yes few ↦ ground (arith, length-contents v)
  | no enough ↦ elim (dec_lt b.a_region_size bytes) [
    | no within ↦ rw (read_from_a bytes v (omega arith)) (
        Returns->>= (switch_regions (advance_a b bytes)) _ (Drops b bytes) _
          (switch_regions-advance_a bytes v (omega arith))
          λ c d. ground (arith, d, take-contents_a bytes v, length-contents v))
    | yes beyond ↦ rw (read_from_b bytes 0 v beyond (omega arith) (b_pointer v (omega arith))) (
        Returns->>=
          (switch_regions (advance_b (advance_a b b.a_region_size) 0 (bytes - b.a_region_size))) _
          (Drops b bytes) _
          (switch_regions-advance_b bytes (bytes - b.a_region_size) v (omega arith) (omega arith))
          λ c d.
            ground (arith, d, take-contents_b bytes (bytes - b.a_region_size) v, length-contents v))
  ]
]

-- Too short, `Read` gives the very buffer back.
pub read_few :
    {b : CircularBuffer} (bytes : ℕ)
    → IsValid b
    → length (contents b) < bytes
    → read b bytes ≡ returns (none, b)
unfolding read
read_few {b} bytes v h = ground (arith, v, length-contents v)

-- What the buffer begins with is read, and the rest stays.
pub read_front :
    (b : CircularBuffer) (n : ℕ) (bytes rest : List ℕ)
    → IsValid b
    → contents b ≡ bytes ++ rest
    → length bytes ≡ n
    → (c : CircularBuffer) × IsValid c
      × (contents c ≡ rest)
      × (read b n ≡ returns (some bytes, c))
      × (c.buffer_end ≡ b.buffer_end)
read_front b n bytes rest v e l =
    let (r, f, p) = Returns_value (read b n) _ (read_refines n v) in
    let taken : (r.0 ≡ some bytes) × (contents r.1 ≡ rest) = ground (
      arith,
      p,
      e,
      l,
      length-append bytes rest,
      take-append_le n bytes rest,
      take_all n bytes,
      drop-append_add n 0 bytes rest,
    ) in
    (r.1, p.0, taken.1, f ∙ ap (λ (out : Option (List ℕ)). returns (out, r.1)) taken.0, p.2)
