-- ===== src/ClientBuffer/Tests.antt =====
-- The client's buffer with bytes that wrap: 6, 7, 1, 2, 3.
use easy_game_server.Prelude.{◌≡◌, some, [], ◌∷◌}
use easy_game_server.CircularBuffer
use easy_game_server.ClientBuffer
use easy_game_server.ClientBuffer.{ClientBuffer}
use easy_game_server.ClientBuffer.Equivalence.{
  server, IsSame, IsSameOutcome, IsSameCall, client-IsSame,
}

abbrev wrapped : ClientBuffer
wrapped = record {
  buffer = 1 ∷ 2 ∷ 3 ∷ 4 ∷ 5 ∷ 6 ∷ 7 ∷ 8 ∷ [];
  buffer_end = 8;
  a_region_pointer = 5;
  a_region_size = 2;
  b_region_pointer = some 0;
  b_region_size = 3;
  capacity = 8;
}

client-IsSame_example :
    (ClientBuffer.peek wrapped 3 ≡ CircularBuffer.peek (server wrapped) 3)
    × IsSameOutcome wrapped (ClientBuffer.read wrapped 3) (CircularBuffer.read (server wrapped) 3)
    × IsSameCall wrapped (ClientBuffer.remove wrapped 3) (CircularBuffer.remove (server wrapped) 3)
    × ((ClientBuffer.write wrapped (9 ∷ [])).0 ≡ (CircularBuffer.write (server wrapped) (9 ∷ [])).0)
    × IsSame wrapped
        (ClientBuffer.write wrapped (9 ∷ [])).1
        (CircularBuffer.write (server wrapped) (9 ∷ [])).1
    × ((ClientBuffer.get_free_space_size wrapped).0
        ≡ (CircularBuffer.get_free_space_size (server wrapped)).0)
    × IsSame wrapped
        (ClientBuffer.get_free_space_size wrapped).1
        (CircularBuffer.get_free_space_size (server wrapped)).1
    × IsSame wrapped (ClientBuffer.commit wrapped 3) (CircularBuffer.commit (server wrapped) 3)
    × (ClientBuffer.get_stored_size wrapped ≡ CircularBuffer.get_stored_size (server wrapped))
    × (ClientBuffer.get_contiguous_bytes wrapped
        ≡ CircularBuffer.get_contiguous_bytes (server wrapped))
    × (ClientBuffer.get_buffer wrapped ≡ CircularBuffer.get_buffer (server wrapped))
    × (ClientBuffer.get_buffer_start wrapped ≡ CircularBuffer.get_buffer_start (server wrapped))
client-IsSame_example = client-IsSame wrapped 3 (9 ∷ [])
