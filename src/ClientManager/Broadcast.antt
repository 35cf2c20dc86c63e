-- ===== src/ClientManager/Broadcast.antt =====
-- Who gets a packet that is broadcast.
use easy_game_server.Prelude.{
  ℕ, ◌==◌, ◌≡◌, ◌≢◌, refl, subst, ◌∙◌, if◌then◌else◌, Option, none, some, List, [], ◌∷◌, arith,
  Bool, false, Returns, Returns->>=, Returns_mono, ℕ_discrete, not, ◌&&◌, ◌||◌,
}
use easy_game_server.ClientSession.{ClientSession, send_request}
use easy_game_server.ClientManager.{ClientManager, Client, broadcast_to, broadcast_packet}
use easy_game_server.ClientManager.Heap.{
  Sessions, lookup, store, lookup-store_same, lookup-store_other,
}

-- Whether the list has a session.
abbrev pub has : List Client → ℕ → Bool
has [] a = false
has (client ∷ clients) a = (client.session == a) || has clients a

-- Every session of the list lives, and none is in it twice.
abbrev pub IsListed : Sessions → List Client → Type 0
IsListed sessions [] = Unit
IsListed sessions (client ∷ clients) =
    (has clients client.session ≡ false)
    × ((s : ClientSession) × (lookup sessions client.session ≡ some s))
    × IsListed sessions clients

-- What the memory holds after the packet has gone to those of the list.
abbrev pub sent : ℕ → List ℕ → List Client → ℕ → Option ClientSession → Option ClientSession
sent from packet clients a none = none
sent from packet clients a (some s) =
    if has clients a && not (from == a) then some (send_request s packet).1 else some s

pub store-IsListed :
    (sessions : Sessions) (clients : List Client) (a : ℕ) (s : ClientSession)
    → has clients a ≡ false
    → IsListed sessions clients
    → IsListed (store sessions a (some s)) clients
store-IsListed sessions [] a s h k = tt
store-IsListed sessions (client ∷ clients) a s h (once, (t, live), rest) = (
  once,
  (t, lookup-store_other sessions a client.session (some s) (ground (arith, h)) ∙ live),
  store-IsListed sessions clients a s (ground (arith, h)) rest,
)

-- The session that sends, at the head of the list, or one that is sent to.
sent-from :
    (from : ℕ) (packet : List ℕ) (client : Client) (clients : List Client) (a : ℕ)
    → (cell : Option ClientSession) → from ≡ client.session
    → sent from packet clients a cell ≡ sent from packet (client ∷ clients) a cell
sent-from from packet client clients a none e = refl
sent-from from packet client clients a (some s) e = ground (arith, e)

sent-store :
    (from : ℕ) (packet : List ℕ) (client : Client) (clients : List Client) (a : ℕ)
    (sessions : Sessions) (s : ClientSession)
    → has clients client.session ≡ false
    → lookup sessions client.session ≡ some s
    → from ≢ client.session
    → sent from packet clients a
        (lookup (store sessions client.session (some (send_request s packet).1)) a)
      ≡ sent from packet (client ∷ clients) a (lookup sessions a)
sent-store from packet client clients a sessions s once live other =
    elim (ℕ_discrete client.session a) [
      | yes e ↦
          subst
            (λ b.
              sent from packet clients b
                (lookup (store sessions client.session (some (send_request s packet).1)) b)
              ≡ sent from packet (client ∷ clients) b (lookup sessions b))
            e
            (rw
              (
                lookup-store_same sessions client.session s (some (send_request s packet).1) live,
                live,
              )
              (ground (arith, once, other)))
      | no n ↦
          rw (lookup-store_other sessions client.session a (some (send_request s packet).1) n)
            (go (lookup sessions a) n)
    ]
  where
    go :
        (cell : Option ClientSession)
        → client.session ≢ a
        → sent from packet clients a cell ≡ sent from packet (client ∷ clients) a cell
    go none n = refl
    go (some t) n = ground (arith, n)

broadcast_to_lem :
    (from : ℕ) (packet : List ℕ) (sessions : Sessions) (clients : List Client)
    → IsListed sessions clients
    → Returns
        (broadcast_to from packet sessions clients)
        λ after. (a : ℕ) → lookup after a ≡ sent from packet clients a (lookup sessions a)
broadcast_to_lem from packet sessions [] h = λ a. nobody a (lookup sessions a)
  where
    nobody : (a : ℕ) (cell : Option ClientSession) → cell ≡ sent from packet [] a cell
    nobody a none = refl
    nobody a (some s) = refl
broadcast_to_lem from packet sessions (client ∷ clients) (once, (s, live), rest) =
    elim (ℕ_discrete from client.session) [
      | yes e ↦ rw (skips e) (
          Returns_mono (broadcast_to from packet sessions clients) _ _
            (broadcast_to_lem from packet sessions clients rest)
            λ after h a. h a ∙ sent-from from packet client clients a (lookup sessions a) e)
      | no n ↦ rw (sends n) (
          Returns_mono
            (broadcast_to from packet
              (store sessions client.session (some (send_request s packet).1)) clients)
            _ _
            (broadcast_to_lem from packet
              (store sessions client.session (some (send_request s packet).1)) clients
              (store-IsListed sessions clients client.session (send_request s packet).1 once rest))
            λ after h a. h a ∙ sent-store from packet client clients a sessions s once live n)
    ]
  where
    skips :
        from ≡ client.session
        → broadcast_to from packet sessions (client ∷ clients)
          ≡ broadcast_to from packet sessions clients
    skips e = ground (arith, e)

    sends :
        from ≢ client.session
        → broadcast_to from packet sessions (client ∷ clients)
          ≡ broadcast_to from packet
              (store sessions client.session (some (send_request s packet).1))
              clients
    sends n = ground (arith, n, live)

-- Where the client list names living sessions, none of them twice, `BroadcastPacket` sends the packet
-- once to each of them but for the sender. No other session changes, nor does the list.
pub broadcast_packet_lem :
    (m : ClientManager) (from : ℕ) (packet : List ℕ)
    → IsListed m.sessions m.client_list
    → Returns (broadcast_packet m from packet) λ after.
      (after.client_list ≡ m.client_list)
      × ((a : ℕ) → lookup after.sessions a ≡ sent from packet m.client_list a (lookup m.sessions a))
unfolding broadcast_packet
broadcast_packet_lem m from packet h =
    Returns->>= (broadcast_to from packet m.sessions m.client_list) _ _ _
      (broadcast_to_lem from packet m.sessions m.client_list h) λ after k. (refl, k)
