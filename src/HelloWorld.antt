-- ===== src/HelloWorld.antt =====
-- Cocos2dxGameClient/Classes/HelloWorldScene.h and HelloWorldScene.cpp: what the game client's scene shows, and
-- what its keys ask for.
--
-- A sprite is its position. `mPeerMap` is the list of its pairs in the order of their insertion, which no
-- method depends on. What a text of a chat is printed as is not part of the state.
pub mod Showing
pub mod Pressing
pub mod Keys
pub mod Starting
mod Tests
use easy_game_server.Prelude.{
  ℕ, ◌==◌, if◌then◌else◌, Option, none, some, List, [], ◌∷◌, Outcome, returns, codes, ◌++◌,
}
use easy_game_server.TcpClient.{
  TcpClient, SceneCall, chat_draw, update_me, update_peer, login_request_sent, chat_request_sent,
  move_request_sent,
}

pub record Peer : Type 0 where
  pub id : ℕ
  pub pos_x : ℕ
  pub pos_y : ℕ

pub record HelloWorld : Type 0 where
  pub player_x : ℕ
  pub player_y : ℕ
  pub peer_map : List Peer

unfoldable pub me_updated : HelloWorld → ℕ → ℕ → HelloWorld
me_updated h x y = record h { player_x = x; player_y = y }

-- The peer is moved, or a new one stands at the place.
abbrev pub placed : List Peer → Peer → List Peer
placed [] new = new ∷ []
placed (peer ∷ peers) new = if new.id == peer.id then new ∷ peers else peer ∷ placed peers new

unfoldable pub peer_updated : HelloWorld → ℕ → ℕ → ℕ → HelloWorld
peer_updated h id x y = record h {
  peer_map = placed h.peer_map (record { id = id; pos_x = x; pos_y = y });
}

-- The calls that the network thread has the scene's thread make.
unfoldable pub performed : HelloWorld → SceneCall → HelloWorld
unfolding me_updated peer_updated
performed h (chat_draw from chat) = h
performed h (update_me x y) = me_updated h x y
performed h (update_peer id x y) = peer_updated h id x y

pub data KeyCode : Type 0 where
  key_up_arrow : KeyCode
  key_down_arrow : KeyCode
  key_left_arrow : KeyCode
  key_right_arrow : KeyCode
  key_l : KeyCode
  key_c : KeyCode
  key_other : KeyCode

-- `plus_ten` and `minus_ten` are what the processor makes of a `float` and the number 10.
module _ (plus_ten minus_ten : ℕ → ℕ) where
  unfoldable pub on_key_released :
      ℕ → ℕ → HelloWorld → TcpClient → KeyCode → Outcome (Option TcpClient)
  on_key_released fuel random h c key_up_arrow =
      returns (move_request_sent fuel h.player_x (plus_ten h.player_y) c)
  on_key_released fuel random h c key_down_arrow =
      returns (move_request_sent fuel h.player_x (minus_ten h.player_y) c)
  on_key_released fuel random h c key_left_arrow =
      returns (move_request_sent fuel (minus_ten h.player_x) h.player_y c)
  on_key_released fuel random h c key_right_arrow =
      returns (move_request_sent fuel (plus_ten h.player_x) h.player_y c)
  on_key_released fuel random h c key_l = returns (login_request_sent fuel random c)
  on_key_released fuel random h c key_c =
      chat_request_sent fuel (codes " - HELLO~~ THIS IS TEST..." ++ (0 ∷ [])) c
  on_key_released fuel random h c key_other = returns (some c)
