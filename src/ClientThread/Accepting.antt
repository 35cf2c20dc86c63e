-- ===== src/ClientThread/Accepting.antt =====
-- The client thread takes all pending sockets before it sleeps.
use easy_game_server.Prelude.{
  ℕ, zero, suc, ◌<◌, ◌≡◌, refl, ap, ◌∙◌, true, false, none, some, List, [], ◌∷◌, ◌++◌, length,
  arith, ◌^◌, Outcome, returns, crashes, ◌>>=◌,
}
use easy_game_server.ProducerConsumerQueue
use easy_game_server.ProducerConsumerQueue.{ProducerConsumerQueue, Attempt, sleeps, finishes}
use easy_game_server.ProducerConsumerQueue.Fifo
use easy_game_server.ProducerConsumerQueue.Refine.{IsValid, contents, view, After, consume_refines}
use easy_game_server.ClientSession.{Socket, Effect}
use easy_game_server.ClientManager.{ClientManager, flush_client_send}
use easy_game_server.ClientThread.{ClientThread, connects, turn, turns}
use easy_game_server.ClientThread.Connecting.{
  connects_all, with_clients, first_recvs, flushed, connects_all_lem,
}

-- An attempt that finishes in the view does.
finished_lem :
    {A R : Type 0} (P : ProducerConsumerQueue A → Type 0)
    (a : Attempt (R × ProducerConsumerQueue A)) (r : R) (items : List A)
    → view a ≡ finishes (r, items)
    → After P a
    → (q : ProducerConsumerQueue A) × P q × (contents q ≡ items) × (a ≡ finishes (r, q))
finished_lem P sleeps r items e v = absurd (cc e)
finished_lem P (finishes (s, q)) r items e v = (q, v, cc e, cc e)

abbrev pub leaving :
    ProducerConsumerQueue Socket
    → Outcome (ClientManager × List (ℕ × Effect))
    → Outcome (ClientThread × List (ℕ × Effect))
leaving rest outcome =
    outcome >>= λ (m, effects). returns (record { pending = rest; manager = m }, effects)

leaving-prepend :
    (rest : ProducerConsumerQueue Socket) (effects : List (ℕ × Effect))
    (outcome : Outcome (ClientManager × List (ℕ × Effect)))
    → (leaving rest outcome >>= λ (t, later). returns (t, effects ++ later))
      ≡ leaving rest (outcome >>= λ (m, later). returns (m, effects ++ later))
leaving-prepend rest effects crashes = refl
leaving-prepend rest effects (returns (m, later)) = refl

module _ (q_size : ℕ) (send_block recv_block : List ℕ) where
  -- A turn that connects, and those after it.
  turns_connect :
      (fuel : ℕ) (t : ClientThread) (next rest : ProducerConsumerQueue Socket)
      (sockets : List Socket)
      → ((m : ClientManager)
          → turns q_size send_block recv_block fuel (record { pending = next; manager = m })
            ≡ some (leaving rest (connects_all send_block recv_block sockets m)))
      → (outcome : Outcome (ClientManager × List (ℕ × Effect)))
      → turn q_size send_block recv_block t ≡ (
          outcome >>= λ (m, effects).
          returns (true, record { pending = next; manager = m }, effects))
      → turns q_size send_block recv_block (suc fuel) t
        ≡ some (
            leaving rest (
              outcome >>= λ (m, effects).
              connects_all send_block recv_block sockets m >>= λ (m', later).
              returns (m', effects ++ later)))
  unfolding turns
  turns_connect fuel t next rest sockets later crashes e = rw (e, turns)
  turns_connect fuel t next rest sockets later (returns (m, effects)) e =
      rw (e, turns, later m)
        (ap some (leaving-prepend rest effects (connects_all send_block recv_block sockets m)))

  -- A turn with nothing pending flushes and sleeps.
  turns_flush :
      (fuel : ℕ) (t : ClientThread) (rest : ProducerConsumerQueue Socket)
      (outcome : Outcome (ClientManager × List (ℕ × Effect)))
      → turn q_size send_block recv_block t ≡ (
          outcome >>= λ (m, effects).
          returns (false, record { pending = rest; manager = m }, effects))
      → 0 < fuel
      → turns q_size send_block recv_block fuel t ≡ some (leaving rest outcome)
  unfolding turns
  turns_flush zero t rest outcome e l = absurd (omega arith)
  turns_flush (suc fuel) t rest crashes e l = rw (e, turns) refl
  turns_flush (suc fuel) t rest (returns (m, effects)) e l = rw (e, turns) refl

  -- Each pending socket is connected, and the queue is empty then.
  turns_connect_all :
      (sockets : List Socket) (q : ProducerConsumerQueue Socket)
      → IsValid q_size q
      → contents q ≡ sockets
      → (rest : ProducerConsumerQueue Socket) × IsValid q_size rest
        × (contents rest ≡ [])
        × ((fuel : ℕ) (m : ClientManager)
            → length sockets < fuel
            → turns q_size send_block recv_block fuel (record { pending = q; manager = m })
              ≡ some (leaving rest (connects_all send_block recv_block sockets m)))
  unfolding turns turn connects_all
  turns_connect_all [] q v e =
      let (seen, kept) = consume_refines q_size false v in
      let (rest, w, f, took) =
        finished_lem (IsValid q_size) (ProducerConsumerQueue.consume q_size q false) none []
          (seen ∙ ap (λ items. Fifo.consume items false) e) kept in
      (
        rest,
        w,
        f,
        λ fuel m l.
            turns_flush fuel (record { pending = q; manager = m }) rest (flush_client_send m)
              (rw (turn, took) refl) l,
      )
  turns_connect_all (socket ∷ sockets) q v e =
      let (seen, kept) = consume_refines q_size false v in
      let (next, w, f, took) =
        finished_lem (IsValid q_size) (ProducerConsumerQueue.consume q_size q false) (some socket)
          sockets (seen ∙ ap (λ items. Fifo.consume items false) e) kept in
      let (rest, w', f', later) = turns_connect_all sockets next w f in
      (rest, w', f', λ fuel m l. step next rest fuel m took later l)
    where
      step :
          (next rest : ProducerConsumerQueue Socket) (fuel : ℕ) (m : ClientManager)
          → ProducerConsumerQueue.consume q_size q false ≡ finishes (some socket, next)
          → ((fuel : ℕ) (m : ClientManager)
              → length sockets < fuel
              → turns q_size send_block recv_block fuel (record { pending = next; manager = m })
                ≡ some (leaving rest (connects_all send_block recv_block sockets m)))
          → suc (length sockets) < fuel
          → turns q_size send_block recv_block fuel (record { pending = q; manager = m })
            ≡ some (leaving rest (connects_all send_block recv_block (socket ∷ sockets) m))
      step next rest zero m took later l = absurd (omega arith)
      step next rest (suc fuel) m took later l =
          turns_connect fuel (record { pending = q; manager = m }) next rest sockets
            (λ n. later fuel n (omega arith)) (connects send_block recv_block m socket)
            (rw (turn, took) refl)

  -- Where the queue of pending sockets is valid, and the receive buffers have fewer than 2 ^ 31
  -- bytes, the client thread's loop, given more turns than there are sockets: behind the sessions
  -- that there are, each socket gets one, in order, that is in the client list, unless its socket is
  -- there already, and that waits for its first bytes; where Winsock refuses the receive, it is
  -- disconnected, unless that is refused as well. The loop flushes once, and sleeps with a valid and
  -- empty queue, unless the flush stops the process.
  pub turns_accepts :
      (sockets : List Socket) (q : ProducerConsumerQueue Socket)
      → IsValid q_size q
      → contents q ≡ sockets
      → length recv_block < 2 ^ 31
      → (rest : ProducerConsumerQueue Socket) × IsValid q_size rest
        × (contents rest ≡ [])
        × ((fuel : ℕ) (m : ClientManager)
            → length sockets < fuel
            → turns q_size send_block recv_block fuel (record { pending = q; manager = m })
              ≡ some (
                  leaving rest (
                    flushed send_block recv_block
                      (first_recvs send_block recv_block (length m.sessions) sockets)
                      (with_clients send_block recv_block m sockets))))
  turns_accepts sockets q v e small =
      let (rest, w, f, run) = turns_connect_all sockets q v e in
      (
        rest,
        w,
        f,
        λ fuel m l.
            run fuel m l
            ∙ ap (λ outcome. some (leaving rest outcome))
                (connects_all_lem send_block recv_block sockets m small),
      )
