-- ===== src/ClientManager/Dispatching.antt =====
-- Whom the results of the database reach.
use easy_game_server.Prelude.{
  ℕ, ◌≡◌, ◌≢◌, refl, ap, sym, subst, ◌⊎◌, inl, inr, ◌++◌, ◌∙◌, if◌then◌else◌, Option, none, some,
  List, [], ◌∷◌, map, Outcome, returns, crashes, ◌>>=◌, deref, Bool, true, false,
}
use easy_game_server.DatabaseJobContext.{
  DatabaseJob, base, load_player, create_player, delete_player, update_player,
}
use easy_game_server.ClientSession.{ClientSession, Effect, Casts, database_job_done}
use easy_game_server.ClientManager.{
  ClientManager, Client, find_key, dispatch_to, dispatch_result, dispatch_database_job_results,
}
use easy_game_server.ClientManager.Heap.{lookup, store, lookup-store_other}

-- What dispatch may do at the address found: nothing elsewhere, and nothing to the list.
abbrev Keeps : ClientManager → Option ℕ → Outcome (ClientManager × List (ℕ × Effect)) → Type 0
Keeps m found crashes = Unit
Keeps m found (returns (after, effects)) =
    (after.client_list ≡ m.client_list)
    × ((a : ℕ) → found ≢ some a → lookup after.sessions a ≡ lookup m.sessions a)

module _ (casts : Casts) where
  dispatch_to-Keeps :
      (m : ClientManager) (job : DatabaseJob) (found : Option ℕ)
      → Keeps m found (dispatch_to casts m job found)
  dispatch_to-Keeps m job none = (refl, λ a n. refl)
  dispatch_to-Keeps m job (some address) = at (lookup m.sessions address)
    where
      done :
          (o : Outcome (ClientSession × List Effect))
          → Keeps m (some address) (
              o >>= λ (s', effects). returns (
                record m { sessions = store m.sessions address (some s') },
                map (λ e. (address, e)) effects,
              ))
      done crashes = tt
      done (returns (s', effects)) =
          (refl, λ a n. lookup-store_other m.sessions address a (some s') (λ e. n (ap some e)))

      go :
          (connected : Bool) (s : ClientSession)
          → Keeps m (some address) (
              if connected
              then (database_job_done casts s job >>= λ (s', effects). returns (
                record m { sessions = store m.sessions address (some s') },
                map (λ e. (address, e)) effects,
              ))
              else returns (m, []))
      go true s = done (database_job_done casts s job)
      go false s = (refl, λ a n. refl)

      at :
          (cell : Option ClientSession)
          → Keeps m (some address) (
              deref cell >>= λ s.
              if s.connected
              then (database_job_done casts s job >>= λ (s', effects). returns (
                record m { sessions = store m.sessions address (some s') },
                map (λ e. (address, e)) effects,
              ))
              else returns (m, []))
      at none = tt
      at (some s) = go s.connected s

-- A result that failed, or whose socket is not that of the session at this address.
abbrev pub IsNotFor : List Client → ℕ → DatabaseJob → Type 0
IsNotFor clients a job =
    ((base job).success ≡ false) ⊎ (find_key clients (base job).sock_key ≢ some a)

abbrev pub AreNotFor : List Client → ℕ → List DatabaseJob → Type 0
AreNotFor clients a [] = Unit
AreNotFor clients a (job ∷ jobs) = IsNotFor clients a job × AreNotFor clients a jobs

-- Where dispatching returns, the list is as it was, and so are the sessions that no result is for.
abbrev Spares :
    ClientManager → List DatabaseJob → Outcome (ClientManager × List (ℕ × Effect)) → Type 0
Spares m jobs crashes = Unit
Spares m jobs (returns (after, effects)) =
    (after.client_list ≡ m.client_list)
    × ((a : ℕ) → AreNotFor m.client_list a jobs → lookup after.sessions a ≡ lookup m.sessions a)

module _ (casts : Casts) (m : ClientManager) (job : DatabaseJob) where
  -- The two classes whose results go to a session.
  chosen :
      (ok : Bool)
      → (base job).success ≡ ok
      → Spares m (job ∷ []) (
          if ok
          then dispatch_to casts m job (find_key m.client_list (base job).sock_key)
          else returns (m, []))
  chosen false e = (refl, λ a n. refl)
  chosen true e =
      go (dispatch_to casts m job (find_key m.client_list (base job).sock_key))
        (dispatch_to-Keeps casts m job (find_key m.client_list (base job).sock_key))
    where
      go :
          (o : Outcome (ClientManager × List (ℕ × Effect)))
          → Keeps m (find_key m.client_list (base job).sock_key) o
          → Spares m (job ∷ []) o
      go crashes k = tt
      go (returns (after, effects)) k = (k.0, λ a n. k.1 a (is_elsewhere a n.0))
        where
          is_elsewhere :
              (a : ℕ)
              → IsNotFor m.client_list a job
              → find_key m.client_list (base job).sock_key ≢ some a
          is_elsewhere a (inl failed) = absurd (cc (failed, e))
          is_elsewhere a (inr n) = n

  both :
      (jobs : List DatabaseJob) (o : Outcome (ClientManager × List (ℕ × Effect)))
      → Spares m (job ∷ []) o
      → ((m' : ClientManager) → Spares m' jobs (dispatch_database_job_results casts m' jobs))
      → Spares m (job ∷ jobs) (
          o >>= λ (m', effects). dispatch_database_job_results casts m' jobs >>= λ (m'', later).
          returns (m'', effects ++ later))
  both jobs crashes h later = tt
  both jobs (returns (m', effects)) h later =
      go (dispatch_database_job_results casts m' jobs) (later m')
    where
      go :
          (o : Outcome (ClientManager × List (ℕ × Effect)))
          → Spares m' jobs o
          → Spares m (job ∷ jobs) (o >>= λ (m'', more). returns (m'', effects ++ more))
      go crashes k = tt
      go (returns (m'', more)) k = (
        k.0 ∙ h.0,
        λ a n. k.1 a (subst (λ clients. AreNotFor clients a jobs) (sym h.0) n.1) ∙ h.1 a (n.0, tt),
      )

module _ (casts : Casts) where
  one-Spares :
      (m : ClientManager) (job : DatabaseJob) → Spares m (job ∷ []) (dispatch_result casts m job)
  one-Spares m (create_player job) = (refl, λ a n. refl)
  one-Spares m (delete_player job) = (refl, λ a n. refl)
  one-Spares m (load_player job) = chosen casts m (load_player job) job.base.success refl
  one-Spares m (update_player job) = chosen casts m (update_player job) job.base.success refl

  results-Spares :
      (m : ClientManager) (jobs : List DatabaseJob)
      → Spares m jobs (dispatch_database_job_results casts m jobs)
  unfolding dispatch_database_job_results
  results-Spares m [] = (refl, λ a n. refl)
  results-Spares m (job ∷ jobs) =
      both casts m job jobs (dispatch_result casts m job) (one-Spares m job)
        λ m'. results-Spares m' jobs

  -- When dispatching the results of the database has returned, the client list is as it was, and so is
  -- every session but those under the sockets of results that succeeded.
  pub dispatch_database_job_results_lem :
      (m after : ClientManager) (jobs : List DatabaseJob) (effects : List (ℕ × Effect)) (a : ℕ)
      → dispatch_database_job_results casts m jobs ≡ returns (after, effects)
      → AreNotFor m.client_list a jobs
      → (after.client_list ≡ m.client_list) × (lookup after.sessions a ≡ lookup m.sessions a)
  dispatch_database_job_results_lem m after jobs effects a e n =
      let (same, spared) = subst (Spares m jobs) e (results-Spares m jobs) in (same, spared a n)
