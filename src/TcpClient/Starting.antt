-- ===== src/TcpClient/Starting.antt =====
-- `initialize`, `connect`, `getInstance` and `destroyInstance` of the game client, on Windows.
--
-- What the calls of the system and the settings give is a parameter, `Answers`.
use easy_game_server.Prelude.{
  ℕ, ◌%◌, ◌^◌, ◌==◌, if◌then◌else◌, Bool, true, false, Option, none, some, List, [],
}
use easy_game_server.TcpClient.{Connection, TcpClient, init}

-- `wsa_startup` is an error code; `socket` and `get_host_by_name` give `none` for `INVALID_SOCKET` and the
-- null pointer, `connects` gives `false` for `SOCKET_ERROR`. `ipaddr` and `port` are settings.
pub record Answers : Type 0 where
  pub wsa_startup : ℕ
  pub socket : Option Connection
  pub get_host_by_name : List ℕ → Option ℕ
  pub connects : ℕ → ℕ → Bool
  pub ipaddr : List ℕ
  pub port : ℕ

-- `NULL` and `INVALID_SOCKET`: each `send` on it fails.
abbrev pub no_socket : Connection
no_socket = record { takes = λ k n. none; calls = 0; sent = [] }

-- The client, whether its network thread was started, and the host and port that it is connected to.
pub record Instance : Type 0 where
  pub client : TcpClient
  pub is_running : Bool
  pub peer : Option (ℕ × ℕ)

abbrev pub new_instance : List ℕ → Instance
new_instance block = record { client = init no_socket block; is_running = false; peer = none }

abbrev with_sock : Connection → TcpClient → TcpClient
with_sock sock c = record c { sock = sock }

unfoldable pub initialize : Answers → Instance → Bool × Instance
initialize a i =
    if a.wsa_startup == 0
    then elim a.socket [
      | none ↦ (false, record i { client = with_sock no_socket i.client })
      | some sock ↦ (true, record i { client = with_sock sock i.client; is_running = true })
    ]
    else (false, i)

unfoldable pub connect : Answers → List ℕ → ℕ → Instance → Bool × Instance
connect a server_addr port i = elim (a.get_host_by_name server_addr) [
  | none ↦ (false, i)
  | some host ↦
      if a.connects host (port % 2 ^ 16)
      then (true, record i { peer = some (host, port % 2 ^ 16) })
      else (false, i)
]

-- What it returns, and `s_TcpClient` after it. The result of `connect` is not looked at.
unfoldable pub get_instance : Answers → List ℕ → Option Instance → Option Instance × Option Instance
unfolding initialize connect
get_instance a block none =
    let (ok, i) = initialize a (new_instance block) in
    let connected = some (connect a a.ipaddr a.port i).1 in
    if ok then (connected, connected) else (none, some i)
get_instance a block (some i) = (some i, some i)

-- The socket that is closed, and `s_TcpClient` after it.
unfoldable pub destroy_instance : Option Instance → Option Connection × Option Instance
destroy_instance none = (none, none)
destroy_instance (some i) = (some i.client.sock, none)
