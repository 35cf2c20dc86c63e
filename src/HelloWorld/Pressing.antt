-- ===== src/HelloWorld/Pressing.antt =====
-- `onKeyReleased` with the `getInstance` of each of its calls.
use easy_game_server.Prelude.{
  ℕ, Bool, true, false, Option, none, some, List, [], ◌∷◌, Outcome, returns, crashes, ◌>>=◌,
  if◌then◌else◌,
}
use easy_game_server.PacketType.{LoginResult}
use easy_game_server.TcpClient.{TcpClient, SceneCall, login_received}
use easy_game_server.TcpClient.Starting.{Answers, Instance, get_instance}
use easy_game_server.HelloWorld.{HelloWorld, KeyCode, key_other, on_key_released, performed}

-- The scene and `s_TcpClient`.
pub record Game : Type 0 where
  pub scene : HelloWorld
  pub instance_made : Option Instance

-- A key with the number that `rand` gives, what the network thread has the scene do, a login's result.
pub data Event : Type 0 where
  releases : KeyCode → ℕ → Event
  draws : SceneCall → Event
  logs_in : LoginResult → Event

abbrev pub asks : KeyCode → Bool
asks key_other = false
asks _ = true

abbrev pub with_client : Game → Instance → Option TcpClient → Option Game
with_client g i none = none
with_client g i (some c) = some (record g { instance_made = some (record i { client = c }) })

abbrev pub logged_in : LoginResult → Option Instance → Option Instance
logged_in p none = none
logged_in p (some i) = some (record i { client = (login_received i.client p).0 })

module _ (plus_ten minus_ten : ℕ → ℕ) (a : Answers) (block : List ℕ) (fuel : ℕ) where
  unfoldable pub released :
      KeyCode → ℕ → Game → Option Instance × Option Instance → Outcome (Option Game)
  unfolding on_key_released
  released key random g (none, made) = crashes
  released key random g (some i, made) =
      on_key_released plus_ten minus_ten fuel random g.scene i.client key >>= λ c.
      returns (with_client g i c)

  unfoldable pub happens : Event → Game → Outcome (Option Game)
  unfolding released get_instance performed login_received
  happens (releases key random) g =
      if asks key
      then released key random g (get_instance a block g.instance_made)
      else returns (some g)
  happens (draws call) g = returns (some (record g { scene = performed g.scene call }))
  happens (logs_in p) g = returns (some (record g { instance_made = logged_in p g.instance_made }))

  unfoldable pub plays : List Event → Game → Outcome (Option Game)
  unfolding happens
  plays [] g = returns (some g)
  plays (e ∷ es) g = happens e g >>= λ out. elim out [ none ↦ returns none | some g' ↦ plays es g' ]
