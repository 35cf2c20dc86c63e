-- ===== src/ClientManager/Creating.antt =====
-- Calls that keep the client list in order: making clients, sending to all, and flushing.
use easy_game_server.Prelude.{
  ℕ, ◌^◌, ◌<◌, ◌≡◌, refl, ap, ◌∙◌, ◌==◌, Bool, true, false, not, ◌&&◌, Bool-cases, inl, inr, Option,
  none, some, List, [], ◌∷◌, ◌++◌, length, arith, Returns, Returns_mono, length-replicate,
}
use easy_game_server.CircularBuffer.Sending.{init-IsValid}
use easy_game_server.CircularBuffer.Writing.{write_refines}
use easy_game_server.ClientSession
use easy_game_server.ClientSession.{
  ClientSession, Socket, Effect, send_request, send_flush, disconnect,
}
use easy_game_server.ClientManager.{
  ClientManager, Client, create_client, broadcast_packet, flush_client_send,
}
use easy_game_server.ClientManager.Heap.{Sessions, lookup}
use easy_game_server.ClientManager.Invariant.{
  IsSession, Lives, IsMap, IsMap-IsListed, Keeps-IsMap, lookup-append, lookup-append_last,
  has-length, insert-IsMap,
}
use easy_game_server.ClientManager.Broadcast.{has, sent, broadcast_packet_lem}
use easy_game_server.ClientManager.Flushing.{sent_off, flush_client_send_lem}

abbrev pub IsWellFormed : ClientManager → Type 0
IsWellFormed m = IsMap m.sessions m.client_list

init-IsSession :
    (socket : Socket) (send_block recv_block : List ℕ)
    → length send_block < 2 ^ 31
    → length recv_block < 2 ^ 31
    → IsSession (ClientSession.init socket send_block recv_block)
unfolding ClientSession.init
init-IsSession socket send_block recv_block h k = record {
  named = length-replicate {A = ℕ} 30 0;
  sends = (init-IsValid send_block h).0;
  receives = (init-IsValid recv_block k).0;
}

-- `CreateClient` keeps the map, whether the socket is new or still there.
pub create_client-IsWellFormed :
    (m : ClientManager) (socket : Socket) (send_block recv_block : List ℕ)
    → length send_block < 2 ^ 31
    → length recv_block < 2 ^ 31
    → IsWellFormed m
    → IsWellFormed (create_client m socket send_block recv_block).1
unfolding create_client ClientSession.init
create_client-IsWellFormed m socket send_block recv_block h k w =
    let new = ClientSession.init socket send_block recv_block in
    let sessions = m.sessions ++ (some new ∷ []) in
    insert-IsMap sessions m.client_list
      (record { sock = socket.handle; session = length m.sessions })
      (has-length m.sessions m.client_list w)
      (
        new,
        lookup-append_last m.sessions (some new),
        refl,
        init-IsSession socket send_block recv_block h k,
      )
      (Keeps-IsMap m.sessions sessions m.client_list
        (λ sock a (s, live, key, good).
          (s, lookup-append m.sessions (some new ∷ []) a s live, key, good))
        w)

pub disconnect-IsSession :
    (s : ClientSession)
    → IsSession s
    → ((disconnect s).socket.handle ≡ s.socket.handle) × IsSession (disconnect s)
unfolding disconnect
disconnect-IsSession s w = ground arith

pub send_request-IsSession :
    (s : ClientSession) (packet : List ℕ)
    → IsSession s
    → let t = (send_request s packet).1 in (t.socket.handle ≡ s.socket.handle) × IsSession t
unfolding send_request disconnect
send_request-IsSession s packet w = ground (arith, w, write_refines packet w.sends)

pub send_flush-IsSession :
    (s : ClientSession)
    → IsSession s
    → let t = (send_flush s).1 in (t.socket.handle ≡ s.socket.handle) × IsSession t
unfolding send_flush
send_flush-IsSession s w = ground (arith, w)

-- A cell after a call, of which the session that was there lives on.
abbrev Becomes : Option ClientSession → ℕ → Type 0
Becomes none sock = ⊥
Becomes (some t) sock = (t.socket.handle ≡ sock) × IsSession t

Becomes-Lives :
    (sessions : Sessions) (sock a : ℕ) (cell : Option ClientSession)
    → lookup sessions a ≡ cell
    → Becomes cell sock
    → Lives sessions sock a
Becomes-Lives sessions sock a none e h = absurd h
Becomes-Lives sessions sock a (some t) e h = (t, e, h.0, h.1)

sent-Becomes :
    (from : ℕ) (packet : List ℕ) (clients : List Client) (a : ℕ) (s : ClientSession)
    → IsSession s
    → Becomes (sent from packet clients a (some s)) s.socket.handle
sent-Becomes from packet clients a s w = elim (Bool-cases (has clients a && not (from == a))) [
  | inl to ↦ rw to (send_request-IsSession s packet w)
  | inr past ↦ rw past (refl, w)
]

pub broadcast_packet-IsWellFormed :
    (m : ClientManager) (from : ℕ) (packet : List ℕ)
    → IsWellFormed m
    → Returns (broadcast_packet m from packet) IsWellFormed
broadcast_packet-IsWellFormed m from packet w =
    Returns_mono (broadcast_packet m from packet) _ _
      (broadcast_packet_lem m from packet (IsMap-IsListed m.sessions m.client_list w))
      λ after (same, cells). rw same (
        Keeps-IsMap m.sessions after.sessions m.client_list
          (λ sock a (s, live, key, good).
            Becomes-Lives after.sessions sock a (sent from packet m.client_list a (some s))
              (cells a ∙ ap (sent from packet m.client_list a) live)
              (rw (← key) (sent-Becomes from packet m.client_list a s good)))
          w)

sent_off-Becomes :
    (listed : Bool) (s : ClientSession)
    → IsSession s
    → Becomes (sent_off listed (some s)) s.socket.handle
sent_off-Becomes false s w = (refl, w)
sent_off-Becomes true s w =
    let (key, good) = send_flush-IsSession s w in
    elim (Bool-cases (send_flush s).0) [
      | inl done ↦ rw done (key, good)
      | inr failed ↦
          rw failed
            (let (key', good') = disconnect-IsSession (send_flush s).1 good in (key' ∙ key, good'))
    ]

pub flush_client_send-IsWellFormed :
    (m : ClientManager)
    → IsWellFormed m
    → Returns (flush_client_send m) λ (after, effects). IsWellFormed after
flush_client_send-IsWellFormed m w =
    Returns_mono (flush_client_send m) _ _
      (flush_client_send_lem m (IsMap-IsListed m.sessions m.client_list w))
      λ (after, effects) (same, cells). rw same (
        Keeps-IsMap m.sessions after.sessions m.client_list
          (λ sock a (s, live, key, good).
            Becomes-Lives after.sessions sock a (sent_off (has m.client_list a) (some s))
              (cells a ∙ ap (sent_off (has m.client_list a)) live)
              (rw (← key) (sent_off-Becomes (has m.client_list a) s good)))
          w)
