-- ===== src/ClientManager/Invariant.antt =====
-- The client list as the map that it is: in the order of its sockets, each with its own living session.
use easy_game_server.Prelude.{
  ℕ, zero, suc, ◌<◌, ◌≡◌, ◌≢◌, refl, ltb, ◌==◌, true, false, Bool-cases, inl, inr, Option, none,
  some, List, [], ◌∷◌, ◌++◌, length, arith,
}
use easy_game_server.PacketType.{max_name_len}
use easy_game_server.CircularBuffer.Invariant
use easy_game_server.ClientSession.{ClientSession}
use easy_game_server.ClientManager.{Client, insert}
use easy_game_server.ClientManager.Heap.{Sessions, lookup}
use easy_game_server.ClientManager.Broadcast.{has, IsListed}

-- A session's name fills its array, and its buffers are valid.
pub record IsSession (s : ClientSession) : Type 0 where
  pub named : length s.player_name ≡ max_name_len
  pub sends : Invariant.IsValid s.send_buffer
  pub receives : Invariant.IsValid s.recv_buffer

-- A session at this address, with this socket.
abbrev pub Lives : Sessions → ℕ → ℕ → Type 0
Lives sessions sock a =
    (s : ClientSession) × (lookup sessions a ≡ some s) × (s.socket.handle ≡ sock) × IsSession s

abbrev pub Above : ℕ → List Client → Type 0
Above sock [] = Unit
Above sock (client ∷ clients) = (sock < client.sock) × Above sock clients

abbrev pub IsMap : Sessions → List Client → Type 0
IsMap sessions [] = Unit
IsMap sessions (client ∷ clients) =
    (has clients client.session ≡ false)
    × Above client.sock clients
    × Lives sessions client.sock client.session
    × IsMap sessions clients

pub IsMap-IsListed :
    (sessions : Sessions) (clients : List Client)
    → IsMap sessions clients
    → IsListed sessions clients
IsMap-IsListed sessions [] h = tt
IsMap-IsListed sessions (client ∷ clients) (once, above, (s, live, key, good), rest) =
    (once, (s, live), IsMap-IsListed sessions clients rest)

-- What lives goes on living, under its socket.
abbrev pub Keeps : Sessions → Sessions → Type 0
Keeps sessions after = (sock a : ℕ) → Lives sessions sock a → Lives after sock a

pub Keeps-IsMap :
    (sessions after : Sessions) (clients : List Client)
    → Keeps sessions after
    → IsMap sessions clients
    → IsMap after clients
Keeps-IsMap sessions after [] keep h = tt
Keeps-IsMap sessions after (client ∷ clients) keep (once, above, lives, rest) = (
  once,
  above,
  keep client.sock client.session lives,
  Keeps-IsMap sessions after clients keep rest,
)

-- A new cell behind the others.
pub lookup-append :
    (cells more : Sessions) (a : ℕ) (s : ClientSession)
    → lookup cells a ≡ some s
    → lookup (cells ++ more) a ≡ some s
lookup-append [] more a s h = absurd (cc h)
lookup-append (cell ∷ cells) more zero s h = h
lookup-append (cell ∷ cells) more (suc a) s h = lookup-append cells more a s h

pub lookup-append_last :
    (cells : Sessions) (cell : Option ClientSession)
    → lookup (cells ++ (cell ∷ [])) (length cells) ≡ cell
lookup-append_last [] cell = refl
lookup-append_last (x ∷ cells) cell = lookup-append_last cells cell

lookup-length : (cells : Sessions) → lookup cells (length cells) ≡ none
lookup-length [] = refl
lookup-length (cell ∷ cells) = lookup-length cells

-- An address behind all cells is in no list.
pub has-length :
    (sessions : Sessions) (clients : List Client)
    → IsMap sessions clients
    → has clients (length sessions) ≡ false
has-length sessions [] h = refl
has-length sessions (client ∷ clients) (once, above, (s, live, key, good), rest) =
    elim (Bool-cases (client.session == length sessions)) [
      | inl e ↦ absurd (cc (live, lookup-length sessions, at e))
      | inr n ↦ rw n (has-length sessions clients rest)
    ]
  where
    at : (client.session == length sessions) ≡ true → client.session ≡ length sessions
    at e = ground (arith, e)

pub has-insert :
    (clients : List Client) (new : Client) (a : ℕ)
    → has clients a ≡ false
    → new.session ≢ a
    → has (insert clients new) a ≡ false
has-insert [] new a h n = ground (arith, n)
has-insert (client ∷ clients) new a h n = ground (arith, h, n, has-insert clients new a)

Above-insert :
    (clients : List Client) (new : Client) (sock : ℕ)
    → Above sock clients
    → sock < new.sock
    → Above sock (insert clients new)
Above-insert [] new sock h l = (l, tt)
Above-insert (client ∷ clients) new sock h l = ground (arith, h, l, Above-insert clients new sock)

Above-trans :
    (clients : List Client) (low high : ℕ) → low < high → Above high clients → Above low clients
Above-trans [] low high l h = tt
Above-trans (client ∷ clients) low high l h = (omega (arith, h), Above-trans clients low high l h.1)

-- A new session goes into the map, unless its socket is there: then nothing changes.
pub insert-IsMap :
    (sessions : Sessions) (clients : List Client) (new : Client)
    → has clients new.session ≡ false
    → Lives sessions new.sock new.session
    → IsMap sessions clients
    → IsMap sessions (insert clients new)
insert-IsMap sessions [] new h lives k = (refl, tt, lives, tt)
insert-IsMap sessions (client ∷ clients) new h lives (once, above, old, rest) =
    elim (Bool-cases (new.sock == client.sock)) [
      | inl same ↦ rw same (once, above, old, rest)
      | inr other ↦ elim (Bool-cases (ltb new.sock client.sock)) [
        | inl first ↦
            rw (other, first)
              (
                h,
                (before first, Above-trans clients new.sock client.sock (before first) above),
                lives,
                (once, above, old, rest),
              )
        | inr behind ↦
            rw (other, behind)
              (
                has-insert clients new client.session once (ground (arith, h)),
                Above-insert clients new client.sock above (ground (arith, other, behind)),
                old,
                insert-IsMap sessions clients new (ground (arith, h)) lives rest,
              )
      ]
    ]
  where
    before : ltb new.sock client.sock ≡ true → new.sock < client.sock
    before e = ground (arith, e)
