-- ===== src/TcpClient/Receiving.antt =====
-- The loop of `processPacket`.
use easy_game_server.Prelude.{
  Bool, All, ℕ, zero, suc, ◌<◌, ◌≡◌, ap, refl, sym, subst, ◌∙◌, inl, inr, List, [], ◌∷◌, ◌++◌,
  length, arith, Outcome, returns, crashes, ◌>>=◌, some, length-append,
}
use easy_game_server.PacketType.{login_result, chat_broadcast_result, move_broadcast_result}
use easy_game_server.PacketType.RoundTrip.{
  login_result-RoundTrips, chat_broadcast_result-RoundTrips, move_broadcast_result-RoundTrips,
}
use easy_game_server.PacketHandling.Framing.{IsIncomplete}
use easy_game_server.CircularBuffer.{CircularBuffer}
use easy_game_server.CircularBuffer.Invariant.{IsValid, contents, get_stored_size-eq-length}
use easy_game_server.CircularBuffer.Reading.{peek_refines, read_front}
use easy_game_server.TcpClient.{
  TcpClient, SceneCall, ends, continues, dispatch, packet_round, process_packet, prepend,
}
use easy_game_server.TcpClient.Results.{
  Result, login, chat, move, result_header, result_bytes, IsResult, handle, process,
  with_recv_buffer, receiving, result_header_lem, handle-recv, receiving-prepend,
}

abbrev pub stream : List Result → List ℕ → List ℕ
stream [] rest = rest
stream (r ∷ rs) rest = result_bytes r ++ stream rs rest

abbrev pub result_size : Result → ℕ
result_size (login p) = login_result.header.size
result_size (chat p) = chat_broadcast_result.header.size
result_size (move p) = move_broadcast_result.header.size

pub length-result_bytes : (r : Result) → IsResult r → length (result_bytes r) ≡ result_size r
length-result_bytes (login p) h = (login_result-RoundTrips p h.0).1
length-result_bytes (chat p) h = (chat_broadcast_result-RoundTrips p h.0).1
length-result_bytes (move p) h = (move_broadcast_result-RoundTrips p h.0).1

module _ (debug : Bool) where
  -- The oldest result is read, and handled by its type.
  dispatch-handle :
      (b : CircularBuffer) (r : Result) (rest : List ℕ)
      → IsResult r
      → IsValid b
      → contents b ≡ result_bytes r ++ rest
      → (d : CircularBuffer) × IsValid d
        × (contents d ≡ rest)
        × (d.buffer_end ≡ b.buffer_end)
        × ((c : TcpClient)
            → dispatch debug (with_recv_buffer b c) (result_header r).type
              ≡ handle (with_recv_buffer d c) r)
  unfolding dispatch
  dispatch-handle b (login p) rest h v e =
      let trip = login_result-RoundTrips p h.0 in
      let (d, w, f, g, same) = read_front b 46 _ rest v e trip.1 in
      (d, w, f, same, λ c. ground (arith, h, g, trip.0))
  dispatch-handle b (chat p) rest h v e =
      let trip = chat_broadcast_result-RoundTrips p h.0 in
      let (d, w, f, g, same) = read_front b 294 _ rest v e trip.1 in
      (d, w, f, same, λ c. ground (arith, h, g, trip.0))
  dispatch-handle b (move p) rest h v e =
      let trip = move_broadcast_result-RoundTrips p h.0 in
      let (d, w, f, g, same) = read_front b 16 _ rest v e trip.1 in
      (d, w, f, same, λ c. ground (arith, h, g, trip.0))

  round_handles :
      (c : TcpClient) (r : Result) (rest : List ℕ)
      → IsResult r
      → IsValid c.recv_buffer
      → contents c.recv_buffer ≡ result_bytes r ++ rest
      → packet_round debug c
        ≡ (dispatch debug c (result_header r).type >>= λ (d, calls). returns (continues d calls))
  unfolding packet_round
  round_handles c r rest h v e = ground (
    arith,
    h,
    v,
    e,
    peek_refines 4 v,
    get_stored_size-eq-length v,
    result_header_lem r rest h,
    length-result_bytes r h,
    length-append (result_bytes r) rest,
  )

  round_ends :
      (c : TcpClient)
      → IsValid c.recv_buffer
      → IsIncomplete (contents c.recv_buffer)
      → packet_round debug c ≡ returns ends
  unfolding packet_round
  round_ends c v (inl few) = ground (arith, v, few, peek_refines 4 v)
  round_ends c v (inr part) = ground (arith, v, part, peek_refines 4 v, get_stored_size-eq-length v)

  loop_ends :
      (fuel : ℕ) (c : TcpClient)
      → IsValid c.recv_buffer
      → IsIncomplete (contents c.recv_buffer)
      → 0 < fuel
      → process_packet debug fuel c ≡ some (returns (c, []))
  unfolding process_packet
  loop_ends zero c v k h = absurd (omega arith)
  loop_ends (suc fuel) c v k h = rw (round_ends c v k, process_packet)

  -- A round that handles a result, and the loop after it.
  loop_handles :
      (fuel : ℕ) (c : TcpClient) (b d : CircularBuffer) (rs : List Result)
      → ((t : TcpClient)
          → process_packet debug fuel (with_recv_buffer b t) ≡ some (receiving d (process t rs)))
      → (m : Outcome (TcpClient × List SceneCall))
      → packet_round debug c ≡ (receiving b m >>= λ (t, calls). returns (continues t calls))
      → process_packet debug (suc fuel) c
        ≡ some (receiving d (m >>= λ (t, calls). prepend calls (process t rs)))
  unfolding process_packet
  loop_handles fuel c b d rs later crashes e = rw (e, process_packet)
  loop_handles fuel c b d rs later (returns (t, calls)) e =
      rw (e, process_packet, later t) (ap some (sym (receiving-prepend d calls (process t rs))))

  -- When a valid receive buffer holds whole results of the server and then bytes that make no whole packet,
  -- the loop, given more rounds than there are results, handles each, in order and once, unless one stops
  -- the process, and leaves the bytes after them in a valid receive buffer of the same size.
  pub process_packet_processes :
      (rs : List Result) (rest : List ℕ) (b : CircularBuffer)
      → All IsResult rs
      → IsIncomplete rest
      → IsValid b
      → contents b ≡ stream rs rest
      → (d : CircularBuffer) × IsValid d
        × (contents d ≡ rest)
        × (d.buffer_end ≡ b.buffer_end)
        × ((fuel : ℕ) (c : TcpClient)
            → length rs < fuel
            → process_packet debug fuel (with_recv_buffer b c) ≡ some (receiving d (process c rs)))
  unfolding process
  process_packet_processes [] rest b h k v e = (
    b,
    v,
    e,
    refl,
    λ fuel c l. loop_ends fuel (with_recv_buffer b c) v (subst IsIncomplete (sym e) k) l,
  )
  process_packet_processes (r ∷ rs) rest b h k v e =
      let (c, w, f, same, g) = dispatch-handle b r (stream rs rest) h.0 v e in
      let (d, w', f', same', later) = process_packet_processes rs rest c h.1 k w f in
      (d, w', f', same' ∙ same, step c d g later)
    where
      step :
          (a d : CircularBuffer)
          → ((c : TcpClient)
              → dispatch debug (with_recv_buffer b c) (result_header r).type
                ≡ handle (with_recv_buffer a c) r)
          → ((fuel : ℕ) (c : TcpClient)
              → length rs < fuel
              → process_packet debug fuel (with_recv_buffer a c)
                ≡ some (receiving d (process c rs)))
          → (fuel : ℕ) (c : TcpClient) → suc (length rs) < fuel
          → process_packet debug fuel (with_recv_buffer b c)
            ≡ some (receiving d (process c (r ∷ rs)))
      step a d g later zero c l = absurd (omega arith)
      step a d g later (suc fuel) c l =
          loop_handles fuel (with_recv_buffer b c) a d rs (λ t. later fuel t (omega arith))
            (handle c r)
            (round_handles (with_recv_buffer b c) r (stream rs rest) h.0 v e
              ∙ ap (λ m. m >>= λ (t, calls). returns (continues t calls)) (g c ∙ handle-recv a c r))
