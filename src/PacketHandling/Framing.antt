-- ===== src/PacketHandling/Framing.antt =====
-- The loop of `OnRead` on a stream of requests.
use easy_game_server.Prelude.{
  All, ℕ, zero, suc, ◌<◌, ◌≡◌, ap, sym, subst, ◌∙◌, ◌⊎◌, inl, inr, List, [], ◌∷◌, ◌++◌, length,
  take, arith, Outcome, returns, crashes, ◌>>=◌, some, length-append,
}
use easy_game_server.PacketType.{
  login_request, chat_broadcast_request, move_request, login_request_bytes,
  chat_broadcast_request_bytes, move_request_bytes, header_of_bytes,
}
use easy_game_server.PacketType.Words.{size_of_short}
use easy_game_server.PacketType.RoundTrip.{
  login_request-RoundTrips, chat_broadcast_request-RoundTrips, move_request-RoundTrips,
}
use easy_game_server.CircularBuffer.{CircularBuffer}
use easy_game_server.CircularBuffer.Invariant.{IsValid, contents, get_stored_size-eq-length}
use easy_game_server.CircularBuffer.Reading.{peek_refines, read_front}
use easy_game_server.ClientSession.{ClientSession, Effect}
use easy_game_server.PacketHandling.{
  handler_table, handler_pkt_cs_login, handler_pkt_cs_chat, handler_pkt_cs_move, read_round,
  read_loop, stops, continues,
}
use easy_game_server.PacketHandling.Requests.{
  Request, login, chat, move, request_header, request_bytes, IsRequest, handle, process,
  with_recv_buffer, receiving, receiving-prepend, request_header_lem, handle-recv,
}

-- Bytes that make no whole packet yet.
abbrev pub IsIncomplete : List ℕ → Type 0
IsIncomplete rest =
    (length rest < 4) ⊎ (length rest < size_of_short (header_of_bytes (take 4 rest)).size)

abbrev pub stream : List Request → List ℕ → List ℕ
stream [] rest = rest
stream (r ∷ rs) rest = request_bytes r ++ stream rs rest

abbrev request_size : Request → ℕ
request_size (login p) = login_request.header.size
request_size (chat p) = chat_broadcast_request.header.size
request_size (move p) = move_request.header.size

pub length-request_bytes : (r : Request) → IsRequest r → length (request_bytes r) ≡ request_size r
length-request_bytes (login p) h = (login_request-RoundTrips p h.0).1
length-request_bytes (chat p) h = (chat_broadcast_request-RoundTrips p h.0).1
length-request_bytes (move p) h = (move_request-RoundTrips p h.0).1

-- The oldest request is read, and the handler of its type handles it.
handler_table-handle :
    (b : CircularBuffer) (r : Request) (rest : List ℕ)
    → IsRequest r
    → IsValid b
    → contents b ≡ request_bytes r ++ rest
    → (c : CircularBuffer) × IsValid c
      × (contents c ≡ rest)
      × ((s : ClientSession)
          → handler_table (request_header r).type (with_recv_buffer b s)
            ≡ handle (with_recv_buffer c s) r)
unfolding handler_table handler_pkt_cs_login handler_pkt_cs_chat handler_pkt_cs_move
handler_table-handle b (login p) rest h v e =
    let trip = login_request-RoundTrips p h.0 in
    let (c, w, f, g, same) = read_front b 8 (login_request_bytes p) rest v e trip.1 in
    (c, w, f, λ s. ground (arith, h, g, trip.0))
handler_table-handle b (chat p) rest h v e =
    let trip = chat_broadcast_request-RoundTrips p h.0 in
    let (c, w, f, g, same) = read_front b 264 (chat_broadcast_request_bytes p) rest v e trip.1 in
    (c, w, f, λ s. ground (arith, h, g, trip.0))
handler_table-handle b (move p) rest h v e =
    let trip = move_request-RoundTrips p h.0 in
    let (c, w, f, g, same) = read_front b 16 (move_request_bytes p) rest v e trip.1 in
    (c, w, f, λ s. ground (arith, h, g, trip.0))

round_handles :
    (s : ClientSession) (r : Request) (rest : List ℕ)
    → IsRequest r
    → IsValid s.recv_buffer
    → contents s.recv_buffer ≡ request_bytes r ++ rest
    → read_round s
      ≡ (handler_table (request_header r).type s >>= λ (t, effects). returns (continues t effects))
unfolding read_round
round_handles s r rest h v e = ground (
  arith,
  h,
  v,
  e,
  peek_refines 4 v,
  get_stored_size-eq-length v,
  request_header_lem r rest h,
  length-request_bytes r h,
  length-append (request_bytes r) rest,
)

-- With no whole packet left the loop ends and changes nothing.
round_stops :
    (s : ClientSession)
    → IsValid s.recv_buffer
    → IsIncomplete (contents s.recv_buffer)
    → read_round s ≡ returns (stops s [])
unfolding read_round
round_stops s v (inl few) = ground (arith, v, few, peek_refines 4 v)
round_stops s v (inr part) = ground (arith, v, part, peek_refines 4 v, get_stored_size-eq-length v)

loop_stops :
    (fuel : ℕ) (s : ClientSession)
    → IsValid s.recv_buffer
    → IsIncomplete (contents s.recv_buffer)
    → 0 < fuel
    → read_loop fuel s ≡ some (returns (s, []))
unfolding read_loop
loop_stops zero s v k h = absurd (omega arith)
loop_stops (suc fuel) s v k h = rw (round_stops s v k, read_loop)

-- A round that handles a request, and the loop after it.
loop_handles :
    (fuel : ℕ) (s : ClientSession) (c d : CircularBuffer) (rs : List Request)
    → ((t : ClientSession)
        → read_loop fuel (with_recv_buffer c t) ≡ some (receiving d (process t rs)))
    → (m : Outcome (ClientSession × List Effect))
    → read_round s ≡ (receiving c m >>= λ (t, effects). returns (continues t effects))
    → read_loop (suc fuel) s
      ≡ some (
          receiving d
            (m >>= λ (t, effects). process t rs >>= λ (u, later). returns (u, effects ++ later)))
unfolding read_loop
loop_handles fuel s c d rs later crashes e = rw (e, read_loop)
loop_handles fuel s c d rs later (returns (t, effects)) e =
    rw (e, read_loop, later t) (ap some (sym (receiving-prepend d effects (process t rs))))

-- After enough rounds every whole request has been handled, in order and once, and what follows them
-- is left in the receive buffer for the next receive.
pub loop_processes :
    (rs : List Request) (rest : List ℕ) (b : CircularBuffer)
    → All IsRequest rs
    → IsIncomplete rest
    → IsValid b
    → contents b ≡ stream rs rest
    → (c : CircularBuffer) × IsValid c
      × (contents c ≡ rest)
      × ((fuel : ℕ) (s : ClientSession)
          → length rs < fuel
          → read_loop fuel (with_recv_buffer b s) ≡ some (receiving c (process s rs)))
unfolding process
loop_processes [] rest b h k v e =
    (b, v, e, λ fuel s l. loop_stops fuel (with_recv_buffer b s) v (subst IsIncomplete (sym e) k) l)
loop_processes (r ∷ rs) rest b h k v e =
    let (c, w, f, g) = handler_table-handle b r (stream rs rest) h.0 v e in
    let (d, w', f', later) = loop_processes rs rest c h.1 k w f in (d, w', f', step c d g later)
  where
    step :
        (c d : CircularBuffer)
        → ((s : ClientSession)
            → handler_table (request_header r).type (with_recv_buffer b s)
              ≡ handle (with_recv_buffer c s) r)
        → ((fuel : ℕ) (s : ClientSession)
            → length rs < fuel
            → read_loop fuel (with_recv_buffer c s) ≡ some (receiving d (process s rs)))
        → (fuel : ℕ) (s : ClientSession) → suc (length rs) < fuel
        → read_loop fuel (with_recv_buffer b s) ≡ some (receiving d (process s (r ∷ rs)))
    step c d g later zero s l = absurd (omega arith)
    step c d g later (suc fuel) s l =
        loop_handles fuel (with_recv_buffer b s) c d rs (λ t. later fuel t (omega arith))
          (handle s r)
          (round_handles (with_recv_buffer b s) r (stream rs rest) h.0 v e
            ∙ ap (λ m. m >>= λ (t, effects). returns (continues t effects))
                (g s ∙ handle-recv c s r))
