-- ===== src/HelloWorld/Tests.antt =====
-- A game whose socket takes all it is offered and that finds no server.
use easy_game_server.Prelude.{
  ◌≡◌, arith, true, none, some, List, [], ◌∷◌, if◌then◌else◌, ◌==◌, returns,
}
use easy_game_server.PacketType.{login_result}
use easy_game_server.TcpClient.{Connection, update_me}
use easy_game_server.TcpClient.Sending.{IsTaking}
use easy_game_server.TcpClient.Starting.{Answers, initialize}
use easy_game_server.HelloWorld.{HelloWorld, key_l, key_up_arrow}
use easy_game_server.HelloWorld.Pressing.{Game, Event, releases, draws, logs_in, plays}
use easy_game_server.HelloWorld.Starting.{plays_lem}

abbrev ready : Connection
ready = record { takes = λ k n. if 0 == n then none else some n; calls = 0; sent = [] }

abbrev answers : Answers
answers = record {
  wsa_startup = 0;
  socket = some ready;
  get_host_by_name = λ text. none;
  connects = λ host port. true;
  ipaddr = [];
  port = 9001;
}

abbrev scene : HelloWorld
scene = record { player_x = 0; player_y = 0; peer_map = [] }

abbrev events : List Event
events =
    releases key_l 5
    ∷ logs_in (record login_result { player_id = 7 })
    ∷ draws (update_me 1 2)
    ∷ releases key_up_arrow 0
    ∷ []

ready-IsTaking : (sock : Connection) → answers.socket ≡ some sock → IsTaking sock
ready-IsTaking sock e k m n took = ground (arith, e, took)

plays_lem_example :
    (g : Game) × (plays
        (λ x. x)
        (λ x. x)
        answers
        []
        265
        events
        (record { scene = scene; instance_made = none })
      ≡ returns (some g))
unfolding initialize
plays_lem_example =
    plays_lem (λ x. x) (λ x. x) answers [] 265 events scene ready-IsTaking (omega arith)
