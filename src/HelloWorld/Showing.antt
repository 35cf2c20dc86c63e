-- ===== src/HelloWorld/Showing.antt =====
-- Where the scene shows the peers.
use easy_game_server.Prelude.{
  ℕ, ◌≡◌, refl, ◌==◌, if◌then◌else◌, Option, none, some, List, [], ◌∷◌, arith,
}
use easy_game_server.TcpClient.{SceneCall, chat_draw, update_me, update_peer}
use easy_game_server.HelloWorld.{Peer, HelloWorld, placed, performed}

abbrev pub shown : List Peer → ℕ → Option (ℕ × ℕ)
shown [] id = none
shown (peer ∷ peers) id = if id == peer.id then some (peer.pos_x, peer.pos_y) else shown peers id

unfoldable pub performs : HelloWorld → List SceneCall → HelloWorld
performs h [] = h
performs h (call ∷ calls) = performs (performed h call) calls

-- The place of a peer in its last update, or `before` where there is none.
abbrev pub last_place : ℕ → Option (ℕ × ℕ) → List SceneCall → Option (ℕ × ℕ)
last_place id before [] = before
last_place id before (chat_draw from chat ∷ calls) = last_place id before calls
last_place id before (update_me x y ∷ calls) = last_place id before calls
last_place id before (update_peer peer x y ∷ calls) =
    last_place id (if id == peer then some (x, y) else before) calls

shown-placed :
    (peers : List Peer) (new : Peer) (id : ℕ)
    → shown (placed peers new) id
      ≡ (if id == new.id then some (new.pos_x, new.pos_y) else shown peers id)
shown-placed [] new id = refl
shown-placed (peer ∷ peers) new id = ground (arith, shown-placed peers new id)

-- After any calls of the network thread every peer is shown at the place of its last update, and at its
-- old one if there was none.
pub shown-performs :
    (calls : List SceneCall) (h : HelloWorld) (id : ℕ)
    → shown (performs h calls).peer_map id ≡ last_place id (shown h.peer_map id) calls
unfolding performs performed
shown-performs [] h id = refl
shown-performs (chat_draw from chat ∷ calls) h id = shown-performs calls h id
shown-performs (update_me x y ∷ calls) h id = shown-performs calls (performed h (update_me x y)) id
shown-performs (update_peer peer x y ∷ calls) h id =
    let new : Peer = record { id = peer; pos_x = x; pos_y = y } in
    rw
      (shown-performs calls (performed h (update_peer peer x y)) id, shown-placed h.peer_map new id)
      refl
