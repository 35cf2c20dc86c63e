-- ===== src/ClientBuffer/Equivalence.antt =====
-- The two versions of the buffer do the same.
use easy_game_server.Prelude.{
  ℕ, ◌≡◌, refl, arith, List, [], replicate, Outcome, returns, crashes, length-write_bytes,
}
use easy_game_server.CircularBuffer
use easy_game_server.CircularBuffer.{CircularBuffer}
use easy_game_server.CircularBuffer.Invariant.{IsValid, contents}
use easy_game_server.ClientBuffer
use easy_game_server.ClientBuffer.{ClientBuffer}

-- The client's buffer without its capacity.
abbrev pub server : ClientBuffer → CircularBuffer
server b = record {
  buffer = b.buffer;
  buffer_end = b.buffer_end;
  a_region_pointer = b.a_region_pointer;
  a_region_size = b.a_region_size;
  b_region_pointer = b.b_region_pointer;
  b_region_size = b.b_region_size;
}

-- A call of the client's buffer does what this call of the server's does, and keeps the capacity.
abbrev pub IsSame : ClientBuffer → ClientBuffer → CircularBuffer → Type 0
IsSame b c d = (server c ≡ d) × (c.capacity ≡ b.capacity)

abbrev pub IsSameOutcome :
    {A : Type 0} → ClientBuffer → Outcome (A × ClientBuffer) → Outcome (A × CircularBuffer) → Type 0
IsSameOutcome b crashes crashes = Unit
IsSameOutcome b (returns (x, c)) (returns (y, d)) = (x ≡ y) × IsSame b c d
IsSameOutcome b _ _ = ⊥

abbrev pub IsSameCall : ClientBuffer → Outcome ClientBuffer → Outcome CircularBuffer → Type 0
IsSameCall b crashes crashes = Unit
IsSameCall b (returns c) (returns d) = IsSame b c d
IsSameCall b _ _ = ⊥

peek_same : (b : ClientBuffer) (n : ℕ) → ClientBuffer.peek b n ≡ CircularBuffer.peek (server b) n
unfolding ClientBuffer.peek CircularBuffer.peek
peek_same b n = refl

read_same :
    (b : ClientBuffer) (n : ℕ)
    → IsSameOutcome b (ClientBuffer.read b n) (CircularBuffer.read (server b) n)
unfolding ClientBuffer.read CircularBuffer.read ClientBuffer.switch_regions
    CircularBuffer.switch_regions
read_same b n = ground arith

remove_same :
    (b : ClientBuffer) (n : ℕ)
    → IsSameCall b (ClientBuffer.remove b n) (CircularBuffer.remove (server b) n)
unfolding ClientBuffer.remove CircularBuffer.remove ClientBuffer.switch_regions
    CircularBuffer.switch_regions
remove_same b n = ground arith

write-IsSame :
    (b : ClientBuffer) (bytes : List ℕ)
    → ((ClientBuffer.write b bytes).0 ≡ (CircularBuffer.write (server b) bytes).0)
      × IsSame b (ClientBuffer.write b bytes).1 (CircularBuffer.write (server b) bytes).1
unfolding ClientBuffer.write CircularBuffer.write
write-IsSame b bytes = ground arith

get_free_space_size-IsSame :
    (b : ClientBuffer)
    → ((ClientBuffer.get_free_space_size b).0 ≡ (CircularBuffer.get_free_space_size (server b)).0)
      × IsSame b
          (ClientBuffer.get_free_space_size b).1
          (CircularBuffer.get_free_space_size (server b)).1
unfolding ClientBuffer.get_free_space_size CircularBuffer.get_free_space_size
get_free_space_size-IsSame b = ground arith

commit-IsSame :
    (b : ClientBuffer) (n : ℕ)
    → IsSame b (ClientBuffer.commit b n) (CircularBuffer.commit (server b) n)
unfolding ClientBuffer.commit CircularBuffer.commit
commit-IsSame b n = ground arith

queries_same :
    (b : ClientBuffer)
    → (ClientBuffer.get_stored_size b ≡ CircularBuffer.get_stored_size (server b))
      × (ClientBuffer.get_contiguous_bytes b ≡ CircularBuffer.get_contiguous_bytes (server b))
      × (ClientBuffer.get_buffer b ≡ CircularBuffer.get_buffer (server b))
      × (ClientBuffer.get_buffer_start b ≡ CircularBuffer.get_buffer_start (server b))
unfolding ClientBuffer.get_stored_size CircularBuffer.get_stored_size
    ClientBuffer.get_contiguous_bytes CircularBuffer.get_contiguous_bytes ClientBuffer.get_buffer
    CircularBuffer.get_buffer ClientBuffer.get_buffer_start CircularBuffer.get_buffer_start
queries_same b = ground arith

-- Each call that reads or changes the client's buffer gives what the same call of the server's buffer
-- gives on the same regions and block, leaves the same regions and block, or stops the process where
-- that does; and it keeps the capacity.
pub client-IsSame :
    (b : ClientBuffer) (n : ℕ) (bytes : List ℕ)
    → (ClientBuffer.peek b n ≡ CircularBuffer.peek (server b) n)
      × IsSameOutcome b (ClientBuffer.read b n) (CircularBuffer.read (server b) n)
      × IsSameCall b (ClientBuffer.remove b n) (CircularBuffer.remove (server b) n)
      × ((ClientBuffer.write b bytes).0 ≡ (CircularBuffer.write (server b) bytes).0)
      × IsSame b (ClientBuffer.write b bytes).1 (CircularBuffer.write (server b) bytes).1
      × ((ClientBuffer.get_free_space_size b).0 ≡ (CircularBuffer.get_free_space_size (server b)).0)
      × IsSame b
          (ClientBuffer.get_free_space_size b).1
          (CircularBuffer.get_free_space_size (server b)).1
      × IsSame b (ClientBuffer.commit b n) (CircularBuffer.commit (server b) n)
      × (ClientBuffer.get_stored_size b ≡ CircularBuffer.get_stored_size (server b))
      × (ClientBuffer.get_contiguous_bytes b ≡ CircularBuffer.get_contiguous_bytes (server b))
      × (ClientBuffer.get_buffer b ≡ CircularBuffer.get_buffer (server b))
      × (ClientBuffer.get_buffer_start b ≡ CircularBuffer.get_buffer_start (server b))
client-IsSame b n bytes = (
  peek_same b n,
  read_same b n,
  remove_same b n,
  (write-IsSame b bytes).0,
  (write-IsSame b bytes).1,
  (get_free_space_size-IsSame b).0,
  (get_free_space_size-IsSame b).1,
  commit-IsSame b n,
  (queries_same b).0,
  (queries_same b).1,
  (queries_same b).2,
  (queries_same b).3,
)

-- `BufferReset` empties a valid buffer whose capacity is its block's size.
buffer_reset-IsValid :
    {b : ClientBuffer}
    → IsValid (server b)
    → b.capacity ≡ b.buffer_end
    → IsValid (server (ClientBuffer.buffer_reset b))
      × (contents (server (ClientBuffer.buffer_reset b)) ≡ [])
unfolding ClientBuffer.buffer_reset
buffer_reset-IsValid {b} v c =
    ground (arith, v, c, length-write_bytes b.buffer 0 (replicate b.capacity 0))
