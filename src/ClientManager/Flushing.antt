-- ===== src/ClientManager/Flushing.antt =====
-- Whose send buffer is flushed.
use easy_game_server.Prelude.{
  ℕ, ◌≡◌, refl, subst, ◌∙◌, if◌then◌else◌, Option, none, some, List, [], ◌∷◌, arith, Bool, false,
  Returns, Returns->>=, ℕ_discrete,
}
use easy_game_server.ClientSession.{ClientSession, send_flush, disconnect}
use easy_game_server.ClientManager.{ClientManager, Client, flushed, flush_all, flush_client_send}
use easy_game_server.ClientManager.Heap.{
  Sessions, lookup, store, lookup-store_same, lookup-store_other,
}
use easy_game_server.ClientManager.Broadcast.{has, IsListed, store-IsListed}

-- What a cell holds afterwards: a listed session has been flushed, and disconnected where that failed.
abbrev pub sent_off : Bool → Option ClientSession → Option ClientSession
sent_off listed none = none
sent_off listed (some s) =
    if listed
    then (if (send_flush s).0 then some (send_flush s).1 else some (disconnect (send_flush s).1))
    else some s

sent_off-store :
    (client : Client) (clients : List Client) (a : ℕ) (sessions : Sessions) (s : ClientSession)
    → has clients client.session ≡ false
    → lookup sessions client.session ≡ some s
    → sent_off (has clients a) (lookup (store sessions client.session (some (flushed s).0)) a)
      ≡ sent_off (has (client ∷ clients) a) (lookup sessions a)
sent_off-store client clients a sessions s once live = elim (ℕ_discrete client.session a) [
  | yes e ↦
      subst
        (λ b.
          sent_off (has clients b) (lookup (store sessions client.session (some (flushed s).0)) b)
          ≡ sent_off (has (client ∷ clients) b) (lookup sessions b))
        e
        (rw (lookup-store_same sessions client.session s (some (flushed s).0) live, live)
          (ground (arith, once)))
  | no n ↦
      rw (lookup-store_other sessions client.session a (some (flushed s).0) n) (ground (arith, n))
]

flush_all_lem :
    (sessions : Sessions) (clients : List Client)
    → IsListed sessions clients
    → Returns
        (flush_all sessions clients)
        λ (after, effects). (a : ℕ) → lookup after a ≡ sent_off (has clients a) (lookup sessions a)
flush_all_lem sessions [] h = λ a. nobody (lookup sessions a)
  where
    nobody : (cell : Option ClientSession) → cell ≡ sent_off false cell
    nobody none = refl
    nobody (some s) = refl
flush_all_lem sessions (client ∷ clients) (once, (s, live), rest) = rw (live) (
    Returns->>= (flush_all (store sessions client.session (some (flushed s).0)) clients) _ _ _
      (flush_all_lem (store sessions client.session (some (flushed s).0)) clients
        (store-IsListed sessions clients client.session (flushed s).0 once rest))
      λ (after, effects) h a. h a ∙ sent_off-store client clients a sessions s once live)

-- Where the client list names living sessions, none of them twice, `FlushClientSend` flushes each of them
-- once and disconnects those whose flush fails. No other session changes, nor does the list.
pub flush_client_send_lem :
    (m : ClientManager)
    → IsListed m.sessions m.client_list
    → Returns (flush_client_send m) λ (after, effects).
      (after.client_list ≡ m.client_list)
      × ((a : ℕ) → lookup after.sessions a ≡ sent_off (has m.client_list a) (lookup m.sessions a))
unfolding flush_client_send
flush_client_send_lem m h =
    Returns->>= (flush_all m.sessions m.client_list) _ _ _
      (flush_all_lem m.sessions m.client_list h) λ after k. (refl, k)
