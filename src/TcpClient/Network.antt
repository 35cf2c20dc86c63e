-- ===== src/TcpClient/Network.antt =====
-- `networkThread`: however the server's results are cut into pieces on their way, the client handles each
-- result once it is whole.
use easy_game_server.Prelude.{
  not, ◌&&◌, Bool, All, ℕ, ◌+◌, ◌<◌, ◌≤◌, ◌≡◌, ap, refl, sym, ◌∙◌, List, [], ◌∷◌, ◌++◌, length,
  arith, Outcome, returns, crashes, ◌>>=◌, some, if◌then◌else◌, append_assoc, append-nil,
  length-append, subst,
}
use easy_game_server.CircularBuffer.{CircularBuffer, write}
use easy_game_server.CircularBuffer.Invariant.{IsValid, contents}
use easy_game_server.CircularBuffer.Writing.{write_refines, write_half}
use easy_game_server.TcpClient.{
  TcpClient, SceneCall, receive, network_thread, process_packet, prepend, buf_size,
}
use easy_game_server.TcpClient.Results.{
  Result, IsResult, handle, process, with_recv_buffer, receiving, receiving-prepend,
}
use easy_game_server.TcpClient.Receiving.{stream, process_packet_processes}
use easy_game_server.TcpClient.Pieces.{IsPart, cuts, whole-not-IsPart}

abbrev pub concat : List (List ℕ) → List ℕ
concat [] = []
concat (xs ∷ xss) = xs ++ concat xss

prepend-prepend :
    (early late : List SceneCall) (m : Outcome (TcpClient × List SceneCall))
    → prepend early (prepend late m) ≡ prepend (early ++ late) m
prepend-prepend early late (returns (c, calls)) =
    ap (λ made. returns (c, made)) (sym (append_assoc early late calls))
prepend-prepend early late crashes = refl

prepend_nothing : (m : Outcome (TcpClient × List SceneCall)) → prepend [] m ≡ m
prepend_nothing (returns (c, calls)) = refl
prepend_nothing crashes = refl

prepend->>= :
    (calls : List SceneCall) (m : Outcome (TcpClient × List SceneCall)) (after : List Result)
    → prepend calls (m >>= λ (d, late). prepend late (process d after))
      ≡ (prepend calls m >>= λ (d, late). prepend late (process d after))
prepend->>= calls (returns (d, late)) after = prepend-prepend calls late (process d after)
prepend->>= calls crashes after = refl

-- Results in two parts.
process-append :
    (c : TcpClient) (before after : List Result)
    → process c (before ++ after)
      ≡ (process c before >>= λ (d, calls). prepend calls (process d after))
unfolding process
process-append c [] after = sym (prepend_nothing (process c after))
process-append c (r ∷ rs) after = go (handle c r) λ d. process-append d rs after
  where
    go :
        (m : Outcome (TcpClient × List SceneCall))
        → ((d : TcpClient)
            → process d (rs ++ after)
              ≡ (process d rs >>= λ (t, calls). prepend calls (process t after)))
        → (m >>= λ (d, calls). prepend calls (process d (rs ++ after))) ≡ (
            (m >>= λ (d, calls). prepend calls (process d rs)) >>= λ (d, calls).
            prepend calls (process d after))
    go crashes split = refl
    go (returns (d, calls)) split =
        ap (prepend calls) (split d) ∙ prepend->>= calls (process d rs) after

module _ (debug : Bool) where
  -- A receive that is no longer than `inBuf`: what is whole then is handled.
  receive_processes :
      (rs : List Result) (rest bytes : List ℕ) (b : CircularBuffer)
      → All IsResult rs
      → IsPart rest
      → IsValid b
      → buf_size ≤ b.buffer_end
      → length (contents b) < 294
      → length bytes ≤ 4096
      → contents b ++ bytes ≡ stream rs rest
      → (d : CircularBuffer) × IsValid d
        × (contents d ≡ rest)
        × (d.buffer_end ≡ b.buffer_end)
        × ((fuel : ℕ) (c : TcpClient)
            → length rs < fuel
            → receive debug fuel (with_recv_buffer b c) bytes ≡ some (receiving d (process c rs)))
  unfolding receive
  receive_processes rs rest bytes b h p v size few few' e =
      let (ok, b') = write b bytes in
      let w = write_refines bytes v in
      let room = write_half bytes v (omega arith) in
      let (d, v', f, same, run) =
        process_packet_processes debug rs rest b' h p.0 w.0
          (w.1 ∙ ap (λ ok. if ok then contents b ++ bytes else contents b) room ∙ e) in
      (
        d,
        v',
        f,
        same ∙ w.2,
        λ fuel c l.
            ap
              (λ ok.
                if not ok && debug
                then some crashes
                else process_packet debug fuel (with_recv_buffer b' c))
              room
            ∙ run fuel c l,
      )

  -- The rounds after a receive, on what it left.
  network_goes_on :
      (fuel : ℕ) (c t : TcpClient) (byte : ℕ) (bytes : List ℕ) (later : List (List ℕ))
      (d d' : CircularBuffer) (before after : List Result)
      → receive debug fuel c (byte ∷ bytes) ≡ some (receiving d (process t before))
      → ((u : TcpClient)
          → network_thread debug fuel (with_recv_buffer d u) later
            ≡ some (receiving d' (process u after)))
      → network_thread debug fuel c ((byte ∷ bytes) ∷ later)
        ≡ some (receiving d' (process t (before ++ after)))
  unfolding network_thread
  network_goes_on fuel c t byte bytes later d d' before after e f =
      rw (process-append t before after) (go (process t before) e)
    where
      go :
          (m : Outcome (TcpClient × List SceneCall))
          → receive debug fuel c (byte ∷ bytes) ≡ some (receiving d m)
          → network_thread debug fuel c ((byte ∷ bytes) ∷ later)
            ≡ some (receiving d' (m >>= λ (u, calls). prepend calls (process u after)))
      go crashes e = rw (network_thread, e) refl
      go (returns (u, calls)) e =
          rw (network_thread, e, f u) (ap some (sym (receiving-prepend d' calls (process u after))))

  -- The server's results, each with the size and type of its struct, fields that fit and a player's
  -- id, come in receives of any lengths up to that of `inBuf`, receives that fail among them, where
  -- at first a valid receive buffer of at least `BUF_SIZE` bytes holds less than a result: given more
  -- rounds of `processPacket` for each receive than there are results, the network thread handles
  -- each result, in order and once, unless one stops the process. A part of a result at the end is
  -- left.
  pub network_thread_processes :
      (received : List (List ℕ)) (rs : List Result) (rest : List ℕ) (b : CircularBuffer)
      → All IsResult rs
      → IsPart rest
      → All (λ bytes. length bytes ≤ 4096) received
      → IsValid b
      → buf_size ≤ b.buffer_end
      → IsPart (contents b)
      → contents b ++ concat received ≡ stream rs rest
      → (d : CircularBuffer) × IsValid d
        × (contents d ≡ rest)
        × ((fuel : ℕ) (c : TcpClient)
            → length rs < fuel
            → network_thread debug fuel (with_recv_buffer b c) received
              ≡ some (receiving d (process c rs)))
  unfolding network_thread process
  network_thread_processes [] [] rest b h p short v size q e =
      (b, v, sym (append-nil (contents b)) ∙ e, λ fuel c l. refl)
  network_thread_processes [] (r ∷ rs) rest b h p short v size q e =
      absurd (
        whole-not-IsPart r (stream rs rest) h.0
          (subst IsPart (sym (append-nil (contents b)) ∙ e) q))
  network_thread_processes ([] ∷ later) rs rest b h p short v size q e =
      network_thread_processes later rs rest b h p short.1 v size q e
  network_thread_processes ((byte ∷ bytes) ∷ later) rs rest b h p short v size q e =
      let c =
        cuts rs rest (contents b ++ (byte ∷ bytes)) (concat later) h p
          (append_assoc (contents b) (byte ∷ bytes) (concat later) ∙ e) in
      let (d, w, f, same, run) =
        receive_processes c.before c.left (byte ∷ bytes) b c.good_before c.part v size q.1 short.0
          c.cut in
      let (d', w', f', runs) =
        network_thread_processes later c.after rest d c.good_after p short.1 w (omega arith)
          (subst IsPart (sym f) c.part) (ap (λ xs. xs ++ concat later) f ∙ c.go_on) in
      let counted : length rs ≡ length c.before + length c.after =
        ap length c.results ∙ length-append c.before c.after in
      (
        d',
        w',
        f',
        λ fuel t l.
            network_goes_on fuel (with_recv_buffer b t) t byte bytes later d d' c.before c.after
              (run fuel t (omega arith)) (λ u. runs fuel u (omega arith))
            ∙ ap (λ qs. some (receiving d' (process t qs))) (sym c.results),
      )
