-- ===== src/CircularBuffer/Writing.antt =====
-- `Write`, and `GetFreeSpaceSize`, `GetBuffer` and `Commit`, by which a receive writes in place.
use easy_game_server.Prelude.{
  ℕ, ◌+◌, ◌*◌, ◌≤◌, ◌<◌, ◌≡◌, refl, Option, none, some, true, List, ◌++◌, length, arith, region,
  leb, if◌then◌else◌, append_assoc, append-nil, length-write_bytes, region-write_bytes_behind,
  region-write_bytes_below, write_bytes,
}
use easy_game_server.CircularBuffer.{CircularBuffer, write, get_free_space_size, get_buffer, commit}
use easy_game_server.CircularBuffer.Invariant.{IsValid, RegionB, contents, length-contents}

-- The bytes after `source` is written behind region A, there being no region B.
contents-write_a :
    {b : CircularBuffer} (source : List ℕ) (n : ℕ)
    → IsValid b
    → b.b_region_size ≡ 0
    → n ≡ b.a_region_size + length source
    → b.a_region_pointer + b.a_region_size + length source ≤ b.buffer_end
    → region
          (write_bytes b.buffer (b.a_region_pointer + b.a_region_size) source)
          b.a_region_pointer
          n
        ++ region
            (write_bytes b.buffer (b.a_region_pointer + b.a_region_size) source)
            0
            b.b_region_size
      ≡ contents b ++ source
contents-write_a {b} source n v e f h = ground (
  arith,
  v,
  region-write_bytes_behind b.buffer b.a_region_pointer b.a_region_size
      (b.a_region_pointer + b.a_region_size) n source,
  append-nil (region b.buffer b.a_region_pointer b.a_region_size),
  append-nil (region b.buffer b.a_region_pointer b.a_region_size ++ source),
)

-- The bytes after `source` is written behind region B.
contents-write_b :
    {b : CircularBuffer} (source : List ℕ) (n : ℕ)
    → IsValid b
    → n ≡ b.b_region_size + length source
    → b.b_region_size + length source ≤ b.a_region_pointer
    → region (write_bytes b.buffer b.b_region_size source) b.a_region_pointer b.a_region_size
        ++ region (write_bytes b.buffer b.b_region_size source) 0 n
      ≡ contents b ++ source
contents-write_b {b} source n v f h = ground (
  arith,
  v,
  region-write_bytes_behind b.buffer 0 b.b_region_size b.b_region_size n source,
  region-write_bytes_below b.buffer b.a_region_pointer b.a_region_size b.b_region_size source,
  append_assoc (region b.buffer b.a_region_pointer b.a_region_size)
      (region b.buffer 0 b.b_region_size) source,
)

-- The state of an appended buffer.
abbrev Appends : CircularBuffer → List ℕ → CircularBuffer → Type 0
Appends b source c = IsValid c × (contents c ≡ contents b ++ source) × (c.buffer_end ≡ b.buffer_end)

-- `GetFreeSpaceSize` keeps the bytes held, and what it returns fits at `GetBuffer` inside the block.
-- The bytes held and the room make up at least half of the block.
pub get_free_space_size_lem :
    {b : CircularBuffer}
    → IsValid b
    → let (n, c) = get_free_space_size b in
      IsValid c
      × (contents c ≡ contents b)
      × (c.buffer_end ≡ b.buffer_end)
      × (get_buffer c + n ≤ b.buffer_end)
      × (length (contents b) + n ≤ b.buffer_end)
      × (b.buffer_end < 2 * (length (contents b) + n) + 1)
unfolding get_free_space_size get_buffer
get_free_space_size_lem {b} v = go b.b_region_pointer v.b_in
  where
    go :
        (q : Option ℕ)
        → RegionB q b.a_region_pointer b.a_region_size b.b_region_size b.buffer_end
        → let (n, c) = get_free_space_size (record b { b_region_pointer = q }) in
          IsValid c
          × (contents c ≡ contents b)
          × (c.buffer_end ≡ b.buffer_end)
          × (get_buffer c + n ≤ b.buffer_end)
          × (length (contents b) + n ≤ b.buffer_end)
          × (b.buffer_end < 2 * (length (contents b) + n) + 1)
    go none h = ground (arith, v, length-contents v)
    go (some p) h = ground (arith, v, length-contents v)

-- Asked again, `GetFreeSpaceSize` says the same.
pub get_free_space_size-twice :
    (b : CircularBuffer) → get_free_space_size (get_free_space_size b).1 ≡ get_free_space_size b
unfolding get_free_space_size
get_free_space_size-twice b = go b.b_region_pointer
  where
    go :
        (q : Option ℕ)
        → let c = record b { b_region_pointer = q } in
          get_free_space_size (get_free_space_size c).1 ≡ get_free_space_size c
    go none = ground arith
    go (some p) = refl

-- `Write` accepts exactly what `GetFreeSpaceSize` has room for. It then appends the bytes behind
-- those held; refused, it leaves the bytes held as they were. The buffer stays valid.
pub write_refines :
    {b : CircularBuffer} (source : List ℕ)
    → IsValid b
    → let (ok, c) = write b source in
      IsValid c
      × (contents c ≡ (if ok then contents b ++ source else contents b))
      × (c.buffer_end ≡ b.buffer_end)
      × (ok ≡ leb (length source) (get_free_space_size b).0)
unfolding write get_free_space_size
write_refines {b} source v = go b.b_region_pointer v.b_in
  where
    go :
        (q : Option ℕ)
        → RegionB q b.a_region_pointer b.a_region_size b.b_region_size b.buffer_end
        → let (ok, c) = write (record b { b_region_pointer = q }) source in
          IsValid c
          × (contents c ≡ (if ok then contents b ++ source else contents b))
          × (c.buffer_end ≡ b.buffer_end)
          × (ok ≡ leb (length source) (get_free_space_size (record b { b_region_pointer = q })).0)
    go none h = ground (
      arith,
      v,
      contents-write_a source (b.a_region_size + length source) v,
      contents-write_b source (b.b_region_size + length source) v,
      length-write_bytes b.buffer (b.a_region_pointer + b.a_region_size) source,
      length-write_bytes b.buffer b.b_region_size source,
    )
    go (some p) h = ground (
      arith,
      v,
      contents-write_b source (b.b_region_size + length source) v,
      length-write_bytes b.buffer b.b_region_size source,
    )

-- `Write` refuses nothing that leaves the buffer at most half full.
pub write_half :
    {b : CircularBuffer} (source : List ℕ)
    → IsValid b
    → 2 * (length (contents b) + length source) ≤ b.buffer_end
    → (write b source).0 ≡ true
write_half {b} source v h = ground (arith, write_refines source v, get_free_space_size_lem v)

-- A receive: the room is asked for, no more bytes than that arrive at `GetBuffer`, and their number
-- is committed. They are appended behind those held.
pub receive_refines :
    {b : CircularBuffer} (received : List ℕ)
    → IsValid b
    → length received ≤ (get_free_space_size b).0
    → let c = (get_free_space_size b).1 in
      let d =
        commit
          (record c { buffer = write_bytes c.buffer (get_buffer c) received })
          (length received) in
      IsValid d × (contents d ≡ contents b ++ received) × (d.buffer_end ≡ b.buffer_end)
unfolding get_free_space_size get_buffer commit
receive_refines {b} received v fits = go b.b_region_pointer v.b_in fits
  where
    go :
        (q : Option ℕ)
        → RegionB q b.a_region_pointer b.a_region_size b.b_region_size b.buffer_end
        → length received ≤ (get_free_space_size (record b { b_region_pointer = q })).0
        → let c = (get_free_space_size (record b { b_region_pointer = q })).1 in
          let d =
            commit
              (record c { buffer = write_bytes c.buffer (get_buffer c) received })
              (length received) in
          IsValid d × (contents d ≡ contents b ++ received) × (d.buffer_end ≡ b.buffer_end)
    go none h k = ground (
      arith,
      v,
      contents-write_a received (b.a_region_size + length received) v,
      contents-write_b received (b.b_region_size + length received) v,
      length-write_bytes b.buffer (b.a_region_pointer + b.a_region_size) received,
      length-write_bytes b.buffer b.b_region_size received,
    )
    go (some p) h k = ground (
      arith,
      v,
      contents-write_b received (b.b_region_size + length received) v,
      length-write_bytes b.buffer b.b_region_size received,
    )
