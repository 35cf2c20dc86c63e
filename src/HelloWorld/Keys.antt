-- ===== src/HelloWorld/Keys.antt =====
-- What each key leaves of the client.
use easy_game_server.Prelude.{
  ℕ, ◌≤◌, ◌<◌, ◌≡◌, refl, ap, Option, some, List, [], ◌∷◌, ◌++◌, length, codes, Bool-cases, inl,
  inr, Outcome, returns, arith,
}
use easy_game_server.PacketType.{
  login_request_bytes, move_request_bytes, chat_broadcast_request_bytes,
}
use easy_game_server.TcpClient.{
  TcpClient, sends, login_request_sent, move_request_sent, chat_request_sent, is_positive,
  is_negative,
}
use easy_game_server.TcpClient.Sending.{IsTaking, sends_lem}
use easy_game_server.HelloWorld.{
  HelloWorld, KeyCode, key_up_arrow, key_down_arrow, key_left_arrow, key_right_arrow, key_l, key_c,
  key_other, on_key_released,
}

-- A call of the client that returns, and leaves it the same socket.
abbrev pub Keeps : TcpClient → Outcome (Option TcpClient) → Type 0
Keeps c m = (c' : TcpClient) × (m ≡ returns (some c')) × (c'.sock.takes ≡ c.sock.takes)

module _ (fuel : ℕ) (c : TcpClient) (t : IsTaking c.sock) (enough : 264 < fuel) where
  sends-Keeps : (bytes : List ℕ) → length bytes ≤ 264 → Keeps c (returns (sends fuel c bytes))
  sends-Keeps bytes l =
      let (c', e, s) = sends_lem fuel c bytes t (omega arith) in (c', ap returns e, s)

  login-Keeps : (random : ℕ) → Keeps c (returns (login_request_sent fuel random c))
  unfolding login_request_sent login_request_bytes
  login-Keeps random = elim (Bool-cases (is_positive c.login_id)) [
    | inl e ↦ (c, rw e refl, refl)
    | inr e ↦ rw e (sends-Keeps _ (omega arith))
  ]

  move-Keeps : (x y : ℕ) → Keeps c (returns (move_request_sent fuel x y c))
  unfolding move_request_sent move_request_bytes
  move-Keeps x y = elim (Bool-cases (is_negative c.login_id)) [
    | inl e ↦ (c, rw e refl, refl)
    | inr e ↦ rw e (sends-Keeps _ (omega arith))
  ]

  chat-Keeps : Keeps c (chat_request_sent fuel (codes " - HELLO~~ THIS IS TEST..." ++ (0 ∷ [])) c)
  unfolding chat_request_sent chat_broadcast_request_bytes
  chat-Keeps = elim (Bool-cases (is_negative c.login_id)) [
    | inl e ↦ (c, rw e refl, refl)
    | inr e ↦ rw e (sends-Keeps _ (omega arith))
  ]

  pub key-Keeps :
      (plus_ten minus_ten : ℕ → ℕ) (random : ℕ) (h : HelloWorld) (key : KeyCode)
      → Keeps c (on_key_released plus_ten minus_ten fuel random h c key)
  unfolding on_key_released
  key-Keeps plus_ten minus_ten random h key_up_arrow = move-Keeps h.player_x (plus_ten h.player_y)
  key-Keeps plus_ten minus_ten random h key_down_arrow =
      move-Keeps h.player_x (minus_ten h.player_y)
  key-Keeps plus_ten minus_ten random h key_left_arrow =
      move-Keeps (minus_ten h.player_x) h.player_y
  key-Keeps plus_ten minus_ten random h key_right_arrow =
      move-Keeps (plus_ten h.player_x) h.player_y
  key-Keeps plus_ten minus_ten random h key_l = login-Keeps random
  key-Keeps plus_ten minus_ten random h key_c = chat-Keeps
  key-Keeps plus_ten minus_ten random h key_other = (c, refl, refl)
