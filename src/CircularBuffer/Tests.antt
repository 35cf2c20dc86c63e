-- ===== src/CircularBuffer/Tests.antt =====
-- The buffer at concrete states: one whose bytes wrap, and one just made.
use easy_game_server.Prelude.{
  ◌≡◌, refl, none, some, List, [], ◌∷◌, ◌++◌, arith, replicate, Returns, returns, leb,
  if◌then◌else◌,
}
use easy_game_server.CircularBuffer.{
  CircularBuffer, init, read, write, remove, get_free_space_size, get_buffer, commit,
  get_buffer_start, get_contiguous_bytes, switch_regions,
}
use easy_game_server.CircularBuffer.Invariant.{IsValid, contents}
use easy_game_server.CircularBuffer.Fifo
use easy_game_server.CircularBuffer.Reading.{read_refines}
use easy_game_server.CircularBuffer.Writing.{write_refines}
use easy_game_server.CircularBuffer.Sending.{init-IsValid}
use easy_game_server.CircularBuffer.Stream.{
  Op, writes, receives, reads, sends, step, run, run-Streams,
}

-- It holds 6, 7, 1, 2, 3, from index 5 to the end of region A and from the start of the block.
abbrev wrapped : CircularBuffer
wrapped = record {
  buffer = 1 ∷ 2 ∷ 3 ∷ 4 ∷ 5 ∷ 6 ∷ 7 ∷ 8 ∷ [];
  buffer_end = 8;
  a_region_pointer = 5;
  a_region_size = 2;
  b_region_pointer = some 0;
  b_region_size = 3;
}

abbrev fresh : CircularBuffer
fresh = record {
  buffer = replicate 4 0;
  buffer_end = 4;
  a_region_pointer = 0;
  a_region_size = 0;
  b_region_pointer = none;
  b_region_size = 0;
}

abbrev script : List Op
script =
    writes (1 ∷ 2 ∷ 3 ∷ [])
    ∷ reads 2
    ∷ receives (4 ∷ 5 ∷ 6 ∷ [])
    ∷ sends 5
    ∷ writes (7 ∷ 8 ∷ 9 ∷ [])
    ∷ reads 1
    ∷ []

wrapped-IsValid : IsValid wrapped
wrapped-IsValid = omega arith

fresh-IsValid : IsValid fresh
fresh-IsValid = omega arith

contents-wrapped : contents wrapped ≡ 6 ∷ 7 ∷ 1 ∷ 2 ∷ 3 ∷ []
contents-wrapped = refl

read-wrapped :
    read wrapped 3
    ≡ returns (
      some (6 ∷ 7 ∷ 1 ∷ []),
      record {
        buffer = 2 ∷ 3 ∷ 3 ∷ 4 ∷ 5 ∷ 6 ∷ 7 ∷ 8 ∷ [];
        buffer_end = 8;
        a_region_pointer = 0;
        a_region_size = 2;
        b_region_pointer = none;
        b_region_size = 0;
      },
    )
unfolding read switch_regions
read-wrapped = refl

init-IsValid_example : IsValid (init (9 ∷ 9 ∷ [])) × (contents (init (9 ∷ 9 ∷ [])) ≡ [])
init-IsValid_example = init-IsValid (9 ∷ 9 ∷ []) (omega arith)

read_refines_example : Returns (read wrapped 3) λ (out, c).
    IsValid c
    × ((out, contents c) ≡ Fifo.read (contents wrapped) 3)
    × (c.buffer_end ≡ 8)
    × (out ≡ none → c ≡ wrapped)
read_refines_example = read_refines 3 wrapped-IsValid

write_refines_example :
    let (ok, c) = write wrapped (4 ∷ []) in
    IsValid c
    × (contents c ≡ (if ok then contents wrapped ++ (4 ∷ []) else contents wrapped))
    × (c.buffer_end ≡ 8)
    × (ok ≡ leb 1 (get_free_space_size wrapped).0)
write_refines_example = write_refines (4 ∷ []) wrapped-IsValid

run-Streams_example :
    Returns
      (run fresh script)
      λ (input, output, c). IsValid c × (contents fresh ++ input ≡ output ++ contents c)
run-Streams_example = run-Streams script fresh fresh-IsValid

run-script :
    Returns
      (run fresh script)
      λ (input, output, c). (input ≡ 1 ∷ 2 ∷ 3 ∷ 4 ∷ 5 ∷ []) × (output ≡ 1 ∷ 2 ∷ 3 ∷ 4 ∷ [])
unfolding run step write get_free_space_size get_buffer commit read switch_regions remove
    get_buffer_start get_contiguous_bytes
run-script = (refl, refl)
