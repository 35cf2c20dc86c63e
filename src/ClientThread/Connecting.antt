-- ===== src/ClientThread/Connecting.antt =====
-- The sessions that new clients get.
use easy_game_server.Prelude.{
  ℕ, suc, ◌<◌, ◌^◌, ◌≡◌, refl, sym, ap, ◌∙◌, not, ◌||◌, if◌then◌else◌, some, Option, List, [], ◌∷◌,
  ◌++◌, length, arith, Outcome, returns, crashes, Bool-cases, inl, inr, map, append_assoc,
  append-nil, length-append, ◌>>=◌,
}
use easy_game_server.CircularBuffer
use easy_game_server.ClientSession
use easy_game_server.ClientSession.{
  ClientSession, Socket, Effect, starts_recv, on_connect, post_recv, disconnect,
}
use easy_game_server.ClientManager.{ClientManager, Client, insert, create_client, flush_client_send}
use easy_game_server.ClientManager.Heap.{Sessions, store}
use easy_game_server.ClientManager.Invariant.{lookup-append_last}
use easy_game_server.ClientThread.{connects}

store-append_last :
    (cells : Sessions) (old new : Option ClientSession)
    → store (cells ++ (old ∷ [])) (length cells) new ≡ cells ++ (new ∷ [])
store-append_last [] old new = refl
store-append_last (cell ∷ cells) old new = ap (◌∷◌ cell) (store-append_last cells old new)

module _ (send_block recv_block : List ℕ) where
  -- A new session. It waits for its first bytes if Winsock took the receive, and has then one reference.
  -- Else it is disconnected, where the option for that is taken.
  abbrev pub greeted : Socket → ClientSession
  greeted k =
      let took = k.answers k.calls in
      record (ClientSession.init k send_block recv_block) {
        connected = took || not (k.answers (suc k.calls));
        ref_count = if took then 1 else 0;
        socket = record k { calls = if took then suc k.calls else suc (suc k.calls) };
      }

  -- Its receive, of all the room that there is.
  abbrev pub first_recv : ℕ → Socket → List (ℕ × Effect)
  first_recv address k =
      if k.answers k.calls then (address, starts_recv 0 (length recv_block)) ∷ [] else []

  abbrev pub with_client : ClientManager → Socket → ClientManager
  with_client m k = record m {
    sessions = m.sessions ++ (some (greeted k) ∷ []);
    client_list = insert m.client_list (record { sock = k.handle; session = length m.sessions });
  }

  all_free :
      length recv_block < 2 ^ 31
      → CircularBuffer.get_free_space_size (CircularBuffer.init recv_block)
        ≡ (length recv_block, CircularBuffer.init recv_block)
  unfolding CircularBuffer.init CircularBuffer.get_free_space_size
  all_free small = ground (arith, small)

  from_start : CircularBuffer.get_buffer (CircularBuffer.init recv_block) ≡ 0
  unfolding CircularBuffer.init CircularBuffer.get_buffer
  from_start = refl

  on_connect_lem :
      (k : Socket)
      → length recv_block < 2 ^ 31
      → let (ok, s, effects) = on_connect (ClientSession.init k send_block recv_block) in
        ((if ok then s else disconnect s) ≡ greeted k)
        × (effects ≡ (if k.answers k.calls then starts_recv 0 (length recv_block) ∷ [] else []))
  unfolding on_connect post_recv disconnect ClientSession.init
  on_connect_lem k small = elim (Bool-cases (k.answers k.calls)) [
    | inl took ↦ rw (all_free small, took, from_start) (refl, refl)
    | inr refused ↦
        rw (all_free small, refused)
          (elim (Bool-cases (k.answers (suc k.calls))) [
            | inl closed ↦ rw closed (refl, refl)
            | inr open_still ↦ rw open_still (refl, refl)
          ])
  ]

  pub connects_lem :
      (m : ClientManager) (k : Socket)
      → length recv_block < 2 ^ 31
      → connects send_block recv_block m k
        ≡ returns (with_client m k, first_recv (length m.sessions) k)
  unfolding connects create_client
  connects_lem m k small =
      let new = ClientSession.init k send_block recv_block in
      let (same, effects) = on_connect_lem k small in
      rw (lookup-append_last m.sessions (some new), same, effects)
        (rw (store-append_last m.sessions (some new) (some (greeted k)))
          (elim (Bool-cases (k.answers k.calls)) [
            | inl took ↦ rw took refl
            | inr refused ↦ rw refused refl
          ]))

module _ (send_block recv_block : List ℕ) where
  -- The sockets' sessions, in order, and then one flush.
  unfoldable pub connects_all :
      List Socket → ClientManager → Outcome (ClientManager × List (ℕ × Effect))
  connects_all [] m = flush_client_send m
  connects_all (socket ∷ sockets) m = connects send_block recv_block m socket >>= λ (m', effects).
      connects_all sockets m' >>= λ (m'', later). returns (m'', effects ++ later)

  -- The client list with an entry for each socket whose session is at the next address.
  abbrev pub listed : List Client → ℕ → List Socket → List Client
  listed clients address [] = clients
  listed clients address (k ∷ ks) =
      listed (insert clients (record { sock = k.handle; session = address })) (suc address) ks

  -- The manager with a session for each socket, behind those that there are.
  abbrev pub with_clients : ClientManager → List Socket → ClientManager
  with_clients m ks = record m {
    sessions = m.sessions ++ map (λ k. some (greeted send_block recv_block k)) ks;
    client_list = listed m.client_list (length m.sessions) ks;
  }

  abbrev pub first_recvs : ℕ → List Socket → List (ℕ × Effect)
  first_recvs address [] = []
  first_recvs address (k ∷ ks) =
      first_recv send_block recv_block address k ++ first_recvs (suc address) ks

  abbrev pub prefixed :
      List (ℕ × Effect)
      → Outcome (ClientManager × List (ℕ × Effect))
      → Outcome (ClientManager × List (ℕ × Effect))
  prefixed effects outcome = outcome >>= λ (m, later). returns (m, effects ++ later)

  -- One flush behind what has been started.
  abbrev pub flushed :
      List (ℕ × Effect) → ClientManager → Outcome (ClientManager × List (ℕ × Effect))
  flushed effects m = prefixed effects (flush_client_send m)

  prefixed_nil :
      (outcome : Outcome (ClientManager × List (ℕ × Effect))) → prefixed [] outcome ≡ outcome
  prefixed_nil crashes = refl
  prefixed_nil (returns (m, later)) = refl

  prefixed-prefixed :
      (effects more : List (ℕ × Effect)) (outcome : Outcome (ClientManager × List (ℕ × Effect)))
      → prefixed effects (prefixed more outcome) ≡ prefixed (effects ++ more) outcome
  prefixed-prefixed effects more crashes = refl
  prefixed-prefixed effects more (returns (m, later)) =
      ap (λ all. returns (m, all)) (sym (append_assoc effects more later))

  with_clients_nil : (m : ClientManager) → with_clients m [] ≡ m
  with_clients_nil m = ap (λ cells. record m { sessions = cells }) (append-nil m.sessions)

  with_clients-cons :
      (m : ClientManager) (k : Socket) (ks : List Socket)
      → with_clients (with_client send_block recv_block m k) ks ≡ with_clients m (k ∷ ks)
  with_clients-cons m k ks =
      let new = some (greeted send_block recv_block k) in
      let longer : length (m.sessions ++ (new ∷ [])) ≡ suc (length m.sessions) =
        omega (arith, length-append m.sessions (new ∷ [])) in
      let more = map (λ k. some (greeted send_block recv_block k)) ks in
      rw (append_assoc m.sessions (new ∷ []) more, longer) refl

  pub connects_all_lem :
      (ks : List Socket) (m : ClientManager)
      → length recv_block < 2 ^ 31
      → connects_all ks m ≡ flushed (first_recvs (length m.sessions) ks) (with_clients m ks)
  unfolding connects_all
  connects_all_lem [] m small =
      sym (prefixed_nil (flush_client_send m)) ∙ ap (λ n. flushed [] n) (sym (with_clients_nil m))
  connects_all_lem (k ∷ ks) m small =
      let n = with_client send_block recv_block m k in
      let new = some (greeted send_block recv_block k) in
      let effects = first_recv send_block recv_block (length m.sessions) k in
      let longer : length n.sessions ≡ suc (length m.sessions) =
        omega (arith, length-append m.sessions (new ∷ [])) in
      rw (connects_lem send_block recv_block m k small) (
        ap (prefixed effects) (connects_all_lem ks n small)
        ∙ prefixed-prefixed effects (first_recvs (length n.sessions) ks)
            (flush_client_send (with_clients n ks))
        ∙ ap (λ a. flushed (effects ++ first_recvs a ks) (with_clients n ks)) longer
        ∙ ap (flushed (effects ++ first_recvs (suc (length m.sessions)) ks))
            (with_clients-cons m k ks))
