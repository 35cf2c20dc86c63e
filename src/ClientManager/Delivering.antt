-- ===== src/ClientManager/Delivering.antt =====
-- Results of the database that are dispatched to the sessions of the list.
use easy_game_server.Prelude.{
  All, ℕ, ◌≡◌, refl, ap, sym, subst, ◌∙◌, ◌==◌, if◌then◌else◌, Bool, true, false, Bool-cases, inl,
  inr, Option, none, some, take, List, [], ◌∷◌, arith, returns, Returns, Returns->>=, replicate,
  find_nul, strcpy_s-some, write_bytes, length-write_bytes, suc, ℕ_discrete,
}
use easy_game_server.PacketType.{max_name_len, login_result, login_result_bytes}
use easy_game_server.DatabaseJobContext.{
  DatabaseJob, base, load_player, create_player, delete_player, update_player, LoadPlayerData,
}
use easy_game_server.ClientSession.{
  ClientSession, Casts, updated_test, send_request, on_tick, on_db_update, login_done,
  database_job_done,
}
use easy_game_server.ClientManager.{
  ClientManager, Client, find, find_key, dispatch_to, dispatch_result,
  dispatch_database_job_results,
}
use easy_game_server.ClientManager.Heap.{
  Sessions, lookup, store, lookup-store_same, lookup-store_other,
}
use easy_game_server.ClientManager.Invariant.{IsSession, Lives, IsMap, Keeps, Keeps-IsMap}
use easy_game_server.ClientManager.Creating.{IsWellFormed, send_request-IsSession}

-- A job as the database leaves it: the name of a player that was loaded ends with a 0.
abbrev pub IsNamed : DatabaseJob → Type 0
IsNamed (load_player job) = (n : ℕ) × (find_nul (take max_name_len job.player_name) ≡ some n)
IsNamed _ = Unit

-- A session that changes in place, and stays sound if it was.
pub Keeps-store :
    (sessions : Sessions) (a : ℕ) (s t : ClientSession)
    → lookup sessions a ≡ some s
    → (IsSession s → (t.socket.handle ≡ s.socket.handle) × IsSession t)
    → Keeps sessions (store sessions a (some t))
Keeps-store sessions a s t live sound sock b (u, old, key, w) = elim (ℕ_discrete a b) [
  | yes e ↦
      let same : u ≡ s = cc (live, old, e) in
      let (key', good) = sound (subst IsSession same w) in
      (
        t,
        ap (lookup (store sessions a (some t))) (sym e)
            ∙ lookup-store_same sessions a s (some t) live,
        key' ∙ ap (λ (v : ClientSession). v.socket.handle) (sym same) ∙ key,
        good,
      )
  | no n ↦ (u, lookup-store_other sessions a b (some t) n ∙ old, key, w)
]

-- The session that the list has under a socket is one of that socket.
find-Lives :
    (sessions : Sessions) (clients : List Client) (sock a : ℕ)
    → IsMap sessions clients
    → find clients sock ≡ some a
    → Lives sessions sock a
find-Lives sessions [] sock a w e = absurd (cc e)
find-Lives sessions (client ∷ clients) sock a (once, above, lives, rest) e =
    elim (Bool-cases (client.sock == sock)) [
      | inl here ↦
          let same : client.sock ≡ sock = ground (arith, here) in
          let at : client.session ≡ a = ground (arith, here, e) in
          subst (λ k. Lives sessions k a) same (subst (λ b. Lives sessions client.sock b) at lives)
      | inr there ↦ find-Lives sessions clients sock a rest (ground (arith, there, e))
    ]

-- Only loaded and updated players go to a session.
abbrev IsDispatched : DatabaseJob → Type 0
IsDispatched (load_player job) = Unit
IsDispatched (update_player job) = Unit
IsDispatched _ = ⊥

==_refl : (n : ℕ) → (n == n) ≡ true
==_refl n = ground arith

module _ (casts : Casts) where
  pub on_db_update-IsSession :
      (s : ClientSession)
      → IsSession s
      → Returns
          (on_db_update casts s)
          λ (t, effects). (t.socket.handle ≡ s.socket.handle) × IsSession t
  unfolding on_db_update
  on_db_update-IsSession s w =
      ground (arith, w, strcpy_s-some (replicate 40 0) updated_test 12 refl)

  pub on_tick-IsSession :
      (s : ClientSession)
      → IsSession s
      → let t = (on_tick s).0 in (t.socket.handle ≡ s.socket.handle) × IsSession t
  unfolding on_tick
  on_tick-IsSession s w = ground (arith, w)

  login_done-IsSession :
      (s : ClientSession) (pid x y : ℕ) (name : List ℕ) (n : ℕ)
      → find_nul (take max_name_len name) ≡ some n
      → IsSession s
      → Returns
          (login_done casts s pid x y name)
          λ (t, effects). (t.socket.handle ≡ s.socket.handle) × IsSession t
  unfolding login_done
  login_done-IsSession s pid x y name n nul w =
      let kept = write_bytes s.player_name 0 (take (suc n) name) in
      let named = write_bytes login_result.name 0 (take (suc n) name) in
      let s₁ = record s { player_id = pid; pos_x = x; pos_y = y; player_name = kept } in
      let good : IsSession s₁ = record {
        named = length-write_bytes s.player_name 0 (take (suc n) name) ∙ w.named;
        sends = w.sends;
        receives = w.receives;
      } in
      let packet =
        login_result_bytes
          (record login_result { player_id = pid; pos_x = x; pos_y = y; name = named }) in
      let (key, sent) = send_request-IsSession s₁ packet good in
      let s₂ = record ((send_request s₁ packet).1) { logon = true } in
      let logged : IsSession s₂ = record {
        named = sent.named;
        sends = sent.sends;
        receives = sent.receives;
      } in
      let (key', ticked) = on_tick-IsSession s₂ logged in
      rw
        (
          strcpy_s-some s.player_name name n (rw (w.named, nul)),
          strcpy_s-some login_result.name name n nul,
        )
        (Returns->>= (on_db_update casts (on_tick s₂).0) _ _ _
          (on_db_update-IsSession (on_tick s₂).0 ticked)
          λ (t, effects) (key'', good'). (key'' ∙ key' ∙ key, good'))

  -- The assertion on the socket holds where the session stands under the job's.
  database_job_done-IsSession :
      (s : ClientSession) (job : LoadPlayerData) (n : ℕ)
      → job.base.sock_key ≡ some s.socket.handle
      → find_nul (take max_name_len job.player_name) ≡ some n
      → IsSession s
      → Returns
          (database_job_done casts s (load_player job))
          λ (t, effects). (t.socket.handle ≡ s.socket.handle) × IsSession t
  unfolding database_job_done
  database_job_done-IsSession s job n key nul w =
      rw (key, ==_refl s.socket.handle)
        (login_done-IsSession s job.player_id (casts.to_float job.pos_x) (casts.to_float job.pos_y)
          job.player_name n nul w)

  -- So it does for any result that is dispatched.
  dispatched-IsSession :
      (s : ClientSession) (job : DatabaseJob)
      → (base job).sock_key ≡ some s.socket.handle
      → IsNamed job
      → IsDispatched job
      → IsSession s
      → Returns
          (database_job_done casts s job)
          λ (t, effects). (t.socket.handle ≡ s.socket.handle) × IsSession t
  unfolding database_job_done
  dispatched-IsSession s (load_player job) key (n, nul) d w =
      database_job_done-IsSession s job n key nul w
  dispatched-IsSession s (update_player job) key named d w =
      rw (key, ==_refl s.socket.handle) (refl, w)
  dispatched-IsSession s (create_player job) key named d w = absurd d
  dispatched-IsSession s (delete_player job) key named d w = absurd d

  -- A result that goes to the session found under its key.
  dispatch_to-IsWellFormed :
      (m : ClientManager) (job : DatabaseJob)
      → IsNamed job
      → IsDispatched job
      → IsWellFormed m
      → Returns
          (dispatch_to casts m job (find_key m.client_list (base job).sock_key))
          λ (after, effects). IsWellFormed after
  dispatch_to-IsWellFormed m job named d w =
      go (base job).sock_key refl (find_key m.client_list (base job).sock_key) refl
    where
      go :
          (key : Option ℕ)
          → (base job).sock_key ≡ key
          → (found : Option ℕ) → find_key m.client_list key ≡ found
          → Returns (dispatch_to casts m job found) λ (after, effects). IsWellFormed after
      go key e none f = w
      go none e (some a) f = absurd (cc f)
      go (some sock) e (some a) f =
          let (s, live, key, good) = find-Lives m.sessions m.client_list sock a w f in
          rw live (elim (Bool-cases s.connected) [
            | inr off ↦ rw off w
            | inl on ↦ rw on (
                Returns->>= (database_job_done casts s job) _ _ _
                  (dispatched-IsSession s job (e ∙ ap some (sym key)) named d good)
                  λ (t, effects) (key', good').
                    Keeps-IsMap m.sessions (store m.sessions a (some t)) m.client_list
                      (Keeps-store m.sessions a s t live (λ sound. (key', good'))) w)
          ])

  dispatch_if-IsWellFormed :
      (m : ClientManager) (job : DatabaseJob) (ok : Bool)
      → IsNamed job
      → IsDispatched job
      → IsWellFormed m
      → Returns
          (if ok
            then dispatch_to casts m job (find_key m.client_list (base job).sock_key)
            else returns (m, []))
          λ (after, effects). IsWellFormed after
  dispatch_if-IsWellFormed m job true named d w = dispatch_to-IsWellFormed m job named d w
  dispatch_if-IsWellFormed m job false named d w = w

  dispatch_result-IsWellFormed :
      (m : ClientManager) (job : DatabaseJob)
      → IsNamed job
      → IsWellFormed m
      → Returns (dispatch_result casts m job) λ (after, effects). IsWellFormed after
  dispatch_result-IsWellFormed m (create_player job) named w = w
  dispatch_result-IsWellFormed m (delete_player job) named w = w
  dispatch_result-IsWellFormed m (load_player job) named w =
      dispatch_if-IsWellFormed m (load_player job) job.base.success named tt w
  dispatch_result-IsWellFormed m (update_player job) named w =
      dispatch_if-IsWellFormed m (update_player job) job.base.success named tt w

  -- Dispatching the results of the database returns, with no assertion failed, and keeps the map.
  pub dispatch_database_job_results-IsWellFormed :
      (m : ClientManager) (jobs : List DatabaseJob)
      → All IsNamed jobs
      → IsWellFormed m
      → Returns (dispatch_database_job_results casts m jobs) λ (after, effects). IsWellFormed after
  unfolding dispatch_database_job_results
  dispatch_database_job_results-IsWellFormed m [] named w = w
  dispatch_database_job_results-IsWellFormed m (job ∷ jobs) named w =
      Returns->>= (dispatch_result casts m job) _ _ _ (dispatch_result-IsWellFormed m job named.0 w)
        λ (m', effects) w'.
          Returns->>= (dispatch_database_job_results casts m' jobs) _ _ _
            (dispatch_database_job_results-IsWellFormed m' jobs named.1 w') λ after good. good
