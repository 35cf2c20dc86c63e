-- ===== src/ClientManager/Collecting.antt =====
-- Which sessions are deleted.
use easy_game_server.Prelude.{
  not, ℕ, ◌==◌, ◌≡◌, refl, subst, ◌∙◌, if◌then◌else◌, Option, none, some, List, [], ◌∷◌, arith,
  Bool, true, false, Returns, Returns->>=, Returns_mono, ℕ_discrete, ◌&&◌, ◌||◌,
}
use easy_game_server.ClientSession.{ClientSession}
use easy_game_server.ClientManager.{
  ClientManager, Client, is_garbage, disconnected_sessions, erase, delete_all,
  collect_garbage_sessions,
}
use easy_game_server.ClientManager.Heap.{
  Sessions, lookup, store, lookup-store_same, lookup-store_other,
}
use easy_game_server.ClientManager.Broadcast.{has, IsListed}

-- What the cell of a listed session holds afterwards.
abbrev pub kept : Bool → Option ClientSession → Option ClientSession
kept listed none = none
kept listed (some s) = if listed && (not s.connected && (s.ref_count == 0)) then none else some s

abbrev pub member : ℕ → List ℕ → Bool
member a [] = false
member a (x ∷ xs) = (x == a) || member a xs

-- Living sessions, none of them twice.
abbrev pub AreLive : Sessions → List ℕ → Type 0
AreLive sessions [] = Unit
AreLive sessions (a ∷ addresses) =
    (member a addresses ≡ false)
    × ((s : ClientSession) × (lookup sessions a ≡ some s))
    × AreLive sessions addresses

abbrev cleared : Bool → Option ClientSession → Option ClientSession
cleared deleted cell = if deleted then none else cell

pub store-AreLive :
    (sessions : Sessions) (addresses : List ℕ) (a : ℕ)
    → member a addresses ≡ false
    → AreLive sessions addresses
    → AreLive (store sessions a none) addresses
store-AreLive sessions [] a h k = tt
store-AreLive sessions (x ∷ addresses) a h (once, (t, live), rest) = (
  once,
  (t, lookup-store_other sessions a x none (ground (arith, h)) ∙ live),
  store-AreLive sessions addresses a (ground (arith, h)) rest,
)

delete_all_lem :
    (m : ClientManager) (addresses : List ℕ)
    → AreLive m.sessions addresses
    → Returns (delete_all m addresses) λ after.
      (a : ℕ) → lookup after.sessions a ≡ cleared (member a addresses) (lookup m.sessions a)
delete_all_lem m [] h = λ a. refl
delete_all_lem m (x ∷ addresses) (once, (s, live), rest) = rw (live) (
    Returns_mono
      (delete_all
        (record m {
          sessions = store m.sessions x none;
          client_list = erase m.client_list s.socket.handle;
        })
        addresses)
      _ _
      (delete_all_lem
        (record m {
          sessions = store m.sessions x none;
          client_list = erase m.client_list s.socket.handle;
        })
        addresses (store-AreLive m.sessions addresses x once rest))
      λ after h a. h a ∙ cell a)
  where
    cell :
        (a : ℕ)
        → cleared (member a addresses) (lookup (store m.sessions x none) a)
          ≡ cleared (member a (x ∷ addresses)) (lookup m.sessions a)
    cell a = elim (ℕ_discrete x a) [
      | yes e ↦
          subst
            (λ b.
              cleared (member b addresses) (lookup (store m.sessions x none) b)
              ≡ cleared (member b (x ∷ addresses)) (lookup m.sessions b))
            e (rw (lookup-store_same m.sessions x s none live, live) (ground (arith, once)))
      | no n ↦ rw (lookup-store_other m.sessions x a none n) (ground (arith, n))
    ]

abbrev pub is_garbage_at : Option ClientSession → Bool
is_garbage_at none = false
is_garbage_at (some s) = is_garbage s

-- The sessions found are those of the list that are disconnected and have no input or output pending.
pub disconnected_sessions_lem :
    (sessions : Sessions) (clients : List Client)
    → IsListed sessions clients
    → Returns (disconnected_sessions sessions clients) λ found.
      AreLive sessions found
      × ((a : ℕ) → member a found ≡ (has clients a && is_garbage_at (lookup sessions a)))
disconnected_sessions_lem sessions [] h = (tt, λ a. refl)
disconnected_sessions_lem sessions (client ∷ clients) (once, (s, live), rest) = rw (live) (
    Returns->>= (disconnected_sessions sessions clients) _ _ _
      (disconnected_sessions_lem sessions clients rest)
      λ found (lives, members). found_here (is_garbage s) refl found lives members)
  where
    found_here :
        (b : Bool)
        → is_garbage s ≡ b
        → (found : List ℕ) → AreLive sessions found
        → ((a : ℕ) → member a found ≡ (has clients a && is_garbage_at (lookup sessions a)))
        → let all = if b then client.session ∷ found else found in
          AreLive sessions all
          × ((a : ℕ)
              → member a all ≡ (has (client ∷ clients) a && is_garbage_at (lookup sessions a)))
    found_here true e found lives members = (
      (ground (arith, once, members client.session), (s, live), lives),
      λ a. elim (ℕ_discrete client.session a) [
        | yes here ↦
            subst
              (λ c.
                member c (client.session ∷ found)
                ≡ (has (client ∷ clients) c && is_garbage_at (lookup sessions c)))
              here (rw (live) (ground (arith, e)))
        | no n ↦ ground (arith, n, members a)
      ],
    )
    found_here false e found lives members = (
      lives,
      λ a. elim (ℕ_discrete client.session a) [
        | yes here ↦
            subst
              (λ c.
                member c found ≡ (has (client ∷ clients) c && is_garbage_at (lookup sessions c)))
              here (rw (live) (ground (arith, e, once, members client.session)))
        | no n ↦ ground (arith, n, members a)
      ],
    )

cleared-kept :
    (deleted listed : Bool) (cell : Option ClientSession)
    → deleted ≡ (listed && is_garbage_at cell)
    → cleared deleted cell ≡ kept listed cell
cleared-kept deleted listed none e = ground (arith, e)
cleared-kept deleted listed (some s) e = ground (arith, e)

-- Where the client list names living sessions, none of them twice, `CollectGarbageSessions` deletes
-- those of them that are disconnected and have no reference left, each once, and no other session.
pub collect_garbage_sessions_lem :
    (m : ClientManager)
    → IsListed m.sessions m.client_list
    → Returns (collect_garbage_sessions m) λ after.
      (a : ℕ) → lookup after.sessions a ≡ kept (has m.client_list a) (lookup m.sessions a)
unfolding collect_garbage_sessions
collect_garbage_sessions_lem m h =
    Returns->>= (disconnected_sessions m.sessions m.client_list) _ _ _
      (disconnected_sessions_lem m.sessions m.client_list h)
      λ found (lives, members).
        Returns_mono (delete_all m found) _ _ (delete_all_lem m found lives) λ after k a.
          k a
          ∙ cleared-kept (member a found) (has m.client_list a) (lookup m.sessions a) (members a)
