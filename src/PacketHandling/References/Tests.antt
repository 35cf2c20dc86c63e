-- ===== src/PacketHandling/References/Tests.antt =====
-- A session that has connected, with its first receive pending.
use easy_game_server.Prelude.{◌+◌, ◌-◌, ◌%◌, ◌^◌, ◌<◌, ◌≡◌, refl, true, replicate, arith}
use easy_game_server.ClientSession.{ClientSession, init, Casts, on_connect, post_recv}
use easy_game_server.ClientManager.{is_garbage}
use easy_game_server.PacketHandling.References.{holds}
use easy_game_server.PacketHandling.References.History.{
  Life, Step, step, here, next, connects, happens, reference_count_lem,
}

abbrev casts : Casts
casts = record { to_float = λ x. x; to_double = λ x. x }

abbrev fresh : ClientSession
fresh = init (record { handle = 5; answers = λ _. true; calls = 0 }) (replicate 8 0) (replicate 8 0)

abbrev unborn : Life
unborn = record { session = fresh; pending = 0 }

abbrev connected : Life
connected = record { session = (on_connect fresh).1; pending = 0 + holds (on_connect fresh).2 - 0 }

connected-Step : Step casts unborn connected
unfolding happens
connected-Step = step connects (on_connect fresh).1 (on_connect fresh).2 (omega arith) refl

pending-connected : connected.pending ≡ 1
unfolding on_connect post_recv init
pending-connected = refl

reference_count_lem_example :
    ((on_connect fresh).1.ref_count % 2 ^ 32 ≡ connected.pending % 2 ^ 32)
    × (is_garbage (on_connect fresh).1 ≡ true → connected.pending < 2 ^ 32 → connected.pending ≡ 0)
unfolding init
reference_count_lem_example =
    reference_count_lem casts {l = unborn} {m = connected} refl refl (next here connected-Step)
