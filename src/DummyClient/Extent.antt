-- ===== src/DummyClient/Extent.antt =====
-- Packets whose length the clients of the load test trust.
use easy_game_server.Prelude.{
  ℕ, suc, ◌^◌, ◌≤◌, ◌<◌, ◌≡◌, ◌⊎◌, List, length, take, drop, arith, crashes, some, sub_size,
  length-take, length-write_bytes, region-zero-write_bytes,
}
use easy_game_server.PacketType.{header_of_bytes}
use easy_game_server.DummyClient.{
  DummyClient, recv_buf_size, handle_read_header, take_packet, take_packets,
}

-- A packet that declares fewer than four bytes, or more than `mReadBuf` has, makes the client read past
-- the end of `mReadBuf`, once as many bytes have come as it then waits for.
pub take_packets_overflows :
    (fuel : ℕ) (d : DummyClient) (bytes : List ℕ)
    → let size = (header_of_bytes (take 4 bytes)).size in
      length d.read_buf ≡ recv_buf_size
      → 4 ≤ length bytes
      → size < 2 ^ 16
      → (size < 4) ⊎ (recv_buf_size < size)
      → sub_size size 4 ≤ length (drop 4 bytes)
      → take_packets (suc fuel) d bytes ≡ some crashes
unfolding take_packets take_packet handle_read_header
take_packets_overflows fuel d bytes b four word outside come = ground (
  arith,
  b,
  four,
  word,
  outside,
  come,
  length-take 4 bytes,
  length-take (sub_size (header_of_bytes (take 4 bytes)).size 4) (drop 4 bytes),
  length-write_bytes d.read_buf 0 (take 4 bytes),
  region-zero-write_bytes d.read_buf (take 4 bytes) 4,
)
