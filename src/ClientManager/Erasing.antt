-- ===== src/ClientManager/Erasing.antt =====
-- What `CollectGarbageSessions` leaves of the client list.
use easy_game_server.Prelude.{
  ℕ, ◌<◌, ◌≡◌, ◌≢◌, ap, sym, ◌∙◌, ◌==◌, true, false, not, ◌&&◌, Bool-cases, inl, inr, none, some,
  List, [], ◌∷◌, arith, Returns, Returns->>=, Returns_mono,
}
use easy_game_server.ClientSession.{ClientSession}
use easy_game_server.ClientManager.{
  ClientManager, Client, erase, delete_all, collect_garbage_sessions, disconnected_sessions,
}
use easy_game_server.ClientManager.Heap.{Sessions, lookup, store, lookup-store_other}
use easy_game_server.ClientManager.Broadcast.{has}
use easy_game_server.ClientManager.Collecting.{
  member, AreLive, store-AreLive, is_garbage_at, disconnected_sessions_lem,
}
use easy_game_server.ClientManager.Invariant.{Lives, Above, IsMap, IsMap-IsListed}
use easy_game_server.ClientManager.Creating.{IsWellFormed}

-- A session of the list stands in it under its own socket.
Above-lt :
    (sessions : Sessions) (clients : List Client) (sock x : ℕ) (s : ClientSession)
    → IsMap sessions clients
    → has clients x ≡ true
    → lookup sessions x ≡ some s
    → Above sock clients
    → sock < s.socket.handle
Above-lt sessions [] sock x s h k live above = absurd (cc k)
Above-lt sessions (client ∷ clients) sock x s (once, order, (t, old, key, good), rest) k live
      above =
    elim (Bool-cases (client.session == x)) [
      | inl here ↦
          let same : t ≡ s = cc (old, live, at here) in
          omega (arith, above, key, ap (λ (u : ClientSession). u.socket.handle) same)
      | inr there ↦ Above-lt sessions clients sock x s rest (ground (arith, k, there)) live above.1
    ]
  where
    at : (client.session == x) ≡ true → client.session ≡ x
    at e = ground (arith, e)

Above-erase :
    (clients : List Client) (sock key : ℕ) → Above sock clients → Above sock (erase clients key)
Above-erase [] sock key h = tt
Above-erase (client ∷ clients) sock key h = ground (arith, h, Above-erase clients sock key)

Lives-store :
    (sessions : Sessions) (sock a x : ℕ)
    → x ≢ a
    → Lives sessions sock a
    → Lives (store sessions x none) sock a
Lives-store sessions sock a x n (s, live, key, good) =
    (s, lookup-store_other sessions x a none n ∙ live, key, good)

store-IsMap :
    (sessions : Sessions) (clients : List Client) (x : ℕ)
    → has clients x ≡ false
    → IsMap sessions clients
    → IsMap (store sessions x none) clients
store-IsMap sessions [] x h k = tt
store-IsMap sessions (client ∷ clients) x h (once, above, lives, rest) = (
  once,
  above,
  Lives-store sessions client.sock client.session x (ground (arith, h)) lives,
  store-IsMap sessions clients x (ground (arith, h)) rest,
)

-- Deleting a session of the list takes its own entry out, and no other.
erase-IsMap :
    (sessions : Sessions) (clients : List Client) (x : ℕ) (s : ClientSession)
    → IsMap sessions clients
    → has clients x ≡ true
    → lookup sessions x ≡ some s
    → IsMap (store sessions x none) (erase clients s.socket.handle)
      × ((a : ℕ) → has (erase clients s.socket.handle) a ≡ (has clients a && not (x == a)))
erase-IsMap sessions [] x s h k live = absurd (cc k)
erase-IsMap sessions (client ∷ clients) x s (once, above, (t, old, key, good), rest) k live =
    elim (Bool-cases (client.session == x)) [
      | inl here ↦
          let same : t ≡ s = cc (old, live, at here) in
          let mine : client.sock ≡ s.socket.handle =
            sym key ∙ ap (λ (u : ClientSession). u.socket.handle) same in
          let test : (client.sock == s.socket.handle) ≡ true = ground (arith, mine) in
          let gone : has clients x ≡ false = ap (has clients) (sym (at here)) ∙ once in
          rw test (store-IsMap sessions clients x gone rest, λ a. ground (arith, here, gone))
      | inr there ↦
          let inside : has clients x ≡ true = ground (arith, k, there) in
          let under = Above-lt sessions clients client.sock x s rest inside live above in
          let (kept, members) = erase-IsMap sessions clients x s rest inside live in
          let test : (client.sock == s.socket.handle) ≡ false = ground (arith, under) in
          rw test (
            (
              members client.session ∙ ground (arith, once),
              Above-erase clients client.sock s.socket.handle above,
              Lives-store sessions client.sock client.session x (ground (arith, there))
                  (t, old, key, good),
              kept,
            ),
            λ a. ground (arith, there, members a),
          )
    ]
  where
    at : (client.session == x) ≡ true → client.session ≡ x
    at e = ground (arith, e)

-- The addresses are living sessions of the list, none of them twice.
delete_all-IsWellFormed :
    (m : ClientManager) (found : List ℕ)
    → IsWellFormed m
    → AreLive m.sessions found
    → ((a : ℕ) → member a found ≡ true → has m.client_list a ≡ true)
    → Returns (delete_all m found) λ after.
      IsWellFormed after
      × ((a : ℕ) → has after.client_list a ≡ (has m.client_list a && not (member a found)))
delete_all-IsWellFormed m [] w lives listed = (w, λ a. ground arith)
delete_all-IsWellFormed m (x ∷ found) w (once, (s, live), rest) listed =
    let inside : has m.client_list x ≡ true = listed x (ground arith) in
    let (kept, members) = erase-IsMap m.sessions m.client_list x s w inside live in
    let m' : ClientManager = record m {
      sessions = store m.sessions x none;
      client_list = erase m.client_list s.socket.handle;
    } in
    rw live (
      Returns_mono (delete_all m' found) _ _
        (delete_all-IsWellFormed m' found kept (store-AreLive m.sessions found x once rest)
          λ a h. members a ∙ ground (arith, h, once, listed a (ground (arith, h))))
        λ after (good, all). (good, λ a. all a ∙ ground (arith, members a)))

-- `CollectGarbageSessions` keeps the map, and takes exactly the sessions that it deletes out of it.
pub collect_garbage_sessions-IsWellFormed :
    (m : ClientManager)
    → IsWellFormed m
    → Returns (collect_garbage_sessions m) λ after.
      IsWellFormed after
      × ((a : ℕ)
          → has after.client_list a ≡ (
              has m.client_list a
              && not (has m.client_list a && is_garbage_at (lookup m.sessions a))))
unfolding collect_garbage_sessions
collect_garbage_sessions-IsWellFormed m w =
    Returns->>= (disconnected_sessions m.sessions m.client_list) _ _ _
      (disconnected_sessions_lem m.sessions m.client_list
        (IsMap-IsListed m.sessions m.client_list w))
      λ found (lives, members).
        Returns_mono (delete_all m found) _ _
          (delete_all-IsWellFormed m found w lives λ a h. ground (arith, h, members a))
          λ after (good, all). (good, λ a. all a ∙ ground (arith, members a))
