-- ===== src/DummyClient/Options.antt =====
-- DummyClient/DummyClient/DummyClient.cpp: the command line of the load test, and what `main` makes of it.
--
-- An argument is the bytes before its 0. `atoi`, as the bit pattern of an `int`, and the addresses that
-- `from_string` takes are parameters; where it throws, `main` prints the error and returns.
use easy_game_server.Prelude.{
  ℕ, ◌%◌, ◌^◌, ltb, ◌==◌, ◌&&◌, if◌then◌else◌, Bool, true, false, Option, none, some, List, [], ◌∷◌,
  ◌++◌, length, replicate, codes, string, strcpy_s, Outcome, returns, ◌>>=◌,
}
use easy_game_server.DummyClient.{Library, DummyClient, Action, start}

abbrev pub same_text : List ℕ → List ℕ → Bool
same_text [] [] = true
same_text [] (c ∷ text) = false
same_text (b ∷ text) [] = false
same_text (b ∷ text) (c ∷ text') = (b == c) && same_text text text'

abbrev pub first : List (List ℕ) → Option (List ℕ)
first [] = none
first (arg ∷ args) = some arg

-- `std::find`, and the argument behind the one found.
unfoldable pub get_command_option : List (List ℕ) → List ℕ → Option (List ℕ)
get_command_option [] comparand = none
get_command_option (arg ∷ args) comparand =
    if same_text arg comparand then first args else get_command_option args comparand

-- `MAX_CONNECTION`, `CONNECT_ADDR` and `CONNECT_PORT`.
pub record Config : Type 0 where
  pub max_connection : ℕ
  pub connect_addr : List ℕ
  pub connect_port : ℕ

abbrev pub default_addr : List ℕ
default_addr = codes "127.0.0.1"

abbrev pub connect_addr_of : List ℕ → Option (List ℕ) → Outcome (List ℕ)
connect_addr_of addr none = returns addr
connect_addr_of addr (some ip_addr) = strcpy_s addr (ip_addr ++ 0 ∷ [])

abbrev pub or_default {ℓ} : {A : Type ℓ} → A → (List ℕ → A) → Option (List ℕ) → A
or_default a f none = a
or_default a f (some text) = f text

module _ (atoi : List ℕ → ℕ) where
  -- The part of `main` before the clients are made.
  unfoldable pub configured : List (List ℕ) → Outcome Config
  unfolding get_command_option
  configured argv = strcpy_s (replicate 32 0) (default_addr ++ 0 ∷ []) >>= λ addr.
      if ltb (length argv) 2
      then returns (record { max_connection = 100; connect_addr = addr; connect_port = 9001 })
      else (connect_addr_of addr (get_command_option argv (codes "--ip")) >>= λ addr'.
          returns (record {
            max_connection = or_default 100 atoi (get_command_option argv (codes "--session"));
            connect_addr = addr';
            connect_port =
                or_default 9001 (λ port. atoi port % 2 ^ 16)
                  (get_command_option argv (codes "--port"));
          }))

-- What the loop over an `int` runs to.
abbrev pub rounds : ℕ → ℕ
rounds n = if ltb n (2 ^ 31) then n else 0

module _ (atoi : List ℕ → ℕ) (from_string : List ℕ → Bool) (lib : Library) (rand : ℕ → ℕ → ℕ)
    (read_buf : List ℕ) where
  abbrev pub started : Config → List ℕ → Option (List (DummyClient × List Action))
  started c address =
      if from_string address
      then some (
          start lib rand read_buf (record { address = address; port = c.connect_port })
            (rounds c.max_connection))
      else none

  -- The clients that `main` makes before `run`, each with what it asks for.
  unfoldable pub main : List (List ℕ) → Outcome (Option (List (DummyClient × List Action)))
  main argv =
      configured atoi argv >>= λ c. string c.connect_addr >>= λ address. returns (started c address)
