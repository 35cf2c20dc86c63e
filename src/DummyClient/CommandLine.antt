-- ===== src/DummyClient/CommandLine.antt =====
-- What the load test makes of its command line.
use easy_game_server.Prelude.{
  get_elem?, get_elem?-append_last, length-append, zero, suc, ◌+◌, ◌∙◌, All, ℕ, ◌%◌, ◌^◌, ◌<◌, ltb,
  ◌≡◌, ◌≢◌, refl, ap₂, ℕ_discrete, if◌then◌else◌, Bool, false, Option, none, some, List, [], ◌∷◌,
  ◌++◌, length, replicate, codes, string, strcpy_s, strcpy_s-text, IsText, strcpy_s-text_long,
  dec_lt, lt→ltb, le→ltb_false, returns, crashes, ◌>>=◌, Returns, Returns_mono, Returns_value, ◌≤◌,
  arith,
}
use easy_game_server.DummyClient.{
  Library, DummyClient, Endpoint, Action, connects_to, connect, init, start, start_player_id,
}
use easy_game_server.DummyClient.Options.{
  same_text, get_command_option, default_addr, connect_addr_of, or_default, configured, rounds,
  main,
}

-- A command line of options and their values.
abbrev pub words : List (List ℕ × List ℕ) → List (List ℕ)
words [] = []
words (pair ∷ pairs) = pair.0 ∷ pair.1 ∷ words pairs

-- The value of the first option of that name.
abbrev pub value_of : List (List ℕ × List ℕ) → List ℕ → Option (List ℕ)
value_of [] key = none
value_of (pair ∷ pairs) key = if same_text pair.0 key then some pair.1 else value_of pairs key

same_text-differs : (text text' : List ℕ) → text ≢ text' → same_text text text' ≡ false
same_text-differs [] [] h = absurd (h refl)
same_text-differs [] (c ∷ text') h = refl
same_text-differs (b ∷ text) [] h = refl
same_text-differs (b ∷ text) (c ∷ text') h = elim (ℕ_discrete b c) [
  | yes e ↦ rw (same_text-differs text text' (λ e'. h (ap₂ ◌∷◌ e e'))) (ground arith)
  | no n ↦ ground (arith, n)
]

get_command_option-words :
    (pairs : List (List ℕ × List ℕ)) (key : List ℕ)
    → All (λ pair. pair.1 ≢ key) pairs
    → get_command_option (words pairs) key ≡ value_of pairs key
unfolding get_command_option
get_command_option-words [] key h = refl
get_command_option-words (pair ∷ pairs) key h =
    rw (same_text-differs pair.1 key h.0, get_command_option-words pairs key h.1) refl

connect_addr_of_lem :
    (addr : List ℕ) (ip_addr : Option (List ℕ))
    → length addr ≡ 32
    → string addr ≡ returns default_addr
    → IsText (or_default default_addr (λ text. text) ip_addr)
    → length (or_default default_addr (λ text. text) ip_addr) < 32
    → Returns
        (connect_addr_of addr ip_addr)
        λ copy. string copy ≡ returns (or_default default_addr (λ text. text) ip_addr)
connect_addr_of_lem addr none l e h short = e
connect_addr_of_lem addr (some text) l e h short =
    Returns_mono (strcpy_s addr (text ++ 0 ∷ [])) _ _ (strcpy_s-text addr text h (omega arith))
      λ copy c. c.1

connect_addr_of_long :
    (addr : List ℕ) (ip_addr : Option (List ℕ))
    → length addr ≡ 32
    → IsText (or_default default_addr (λ text. text) ip_addr)
    → 32 ≤ length (or_default default_addr (λ text. text) ip_addr)
    → connect_addr_of addr ip_addr ≡ crashes
connect_addr_of_long addr none l h long = absurd (omega arith)
connect_addr_of_long addr (some text) l h long = strcpy_s-text_long addr text h (omega arith)

-- A command line behind the program's name, with options and their values, of which none is an option's
-- name.
pub record IsCommandLine (program : List ℕ) (pairs : List (List ℕ × List ℕ)) : Type 0 where
  pub program_name :
      (program ≢ codes "--ip") × (program ≢ codes "--port") × (program ≢ codes "--session")
  pub ip_apart : All (λ pair. pair.1 ≢ codes "--ip") pairs
  pub port_apart : All (λ pair. pair.1 ≢ codes "--port") pairs
  pub session_apart : All (λ pair. pair.1 ≢ codes "--session") pairs

module _ (pairs : List (List ℕ × List ℕ)) where
  abbrev pub ip_addr : List ℕ
  ip_addr = or_default default_addr (λ text. text) (value_of pairs (codes "--ip"))

  abbrev pub port_of : (List ℕ → ℕ) → ℕ
  port_of atoi = or_default 9001 (λ port. atoi port % 2 ^ 16) (value_of pairs (codes "--port"))

  abbrev pub session_of : (List ℕ → ℕ) → ℕ
  session_of atoi = or_default 100 atoi (value_of pairs (codes "--session"))

found :
    (program : List ℕ) (pairs : List (List ℕ × List ℕ)) (key : List ℕ)
    → program ≢ key
    → All (λ pair. pair.1 ≢ key) pairs
    → get_command_option (program ∷ words pairs) key ≡ value_of pairs key
unfolding get_command_option
found program pairs key n h =
    rw (same_text-differs program key n) (get_command_option-words pairs key h)

-- What is made of the options, without a value or with one.
configured_by :
    (atoi : List ℕ → ℕ) (program : List ℕ) (pairs : List (List ℕ × List ℕ)) (addr : List ℕ)
    → IsCommandLine program pairs
    → strcpy_s (replicate 32 0) (default_addr ++ 0 ∷ []) ≡ returns addr
    → configured atoi (program ∷ words pairs) ≡ (
        connect_addr_of addr (value_of pairs (codes "--ip")) >>= λ copy. returns (record {
          max_connection = session_of pairs atoi;
          connect_addr = copy;
          connect_port = port_of pairs atoi;
        }))
unfolding configured
configured_by atoi program [] addr cl e = rw (configured, e) refl
configured_by atoi program (pair ∷ pairs) addr cl e =
    let more : ltb (length (program ∷ words (pair ∷ pairs))) 2 ≡ false = ground arith in
    rw
      (
        e,
        more,
        found program (pair ∷ pairs) (codes "--ip") cl.program_name.0 cl.ip_apart,
        found program (pair ∷ pairs) (codes "--port") cl.program_name.1 cl.port_apart,
        found program (pair ∷ pairs) (codes "--session") cl.program_name.2 cl.session_apart,
      )
      refl

default_copied :
    Returns
      (strcpy_s (replicate 32 0) (default_addr ++ 0 ∷ []))
      λ addr. (length addr ≡ 32) × (string addr ≡ returns default_addr)
default_copied =
    strcpy_s-text (replicate 32 0) default_addr (omega arith, omega arith) (omega arith)

module _ (serv : Endpoint) where
  -- As many clients as there are rounds, with numbers in a row, each of which connects once.
  abbrev pub AreConnecting : List (DummyClient × List Action) → ℕ → Type 0
  AreConnecting clients n =
      (length clients ≡ n)
      × ((i : ℕ)
          → i < n
          → (d : DummyClient) × (get_elem? clients i ≡ some (d, connects_to serv ∷ []))
            × (d.player_id ≡ 1001 + i)
            × (d.logon ≡ false))

module _ (lib : Library) (rand : ℕ → ℕ → ℕ) (read_buf : List ℕ) (serv : Endpoint) where
  start-AreConnecting : (n : ℕ) → AreConnecting serv (start lib rand read_buf serv n) n
  unfolding start init connect
  start-AreConnecting zero = (refl, λ i l. absurd (omega arith))
  start-AreConnecting (suc n) =
      let (l, earlier) = start-AreConnecting n in
      let last = connect serv (init lib (rand n) read_buf (start_player_id + n)) in
      let clients = start lib rand read_buf serv n in
      (
        omega (arith, l, length-append clients (last ∷ [])),
        λ i k. elim (ℕ_discrete i n) [
          | yes e ↦ (
            last.0,
            get_elem?-append_last clients last i ∙ ground (arith, l, e),
            ground (arith, e),
            refl,
          )
          | no d ↦
              let (made, f, numbered, out) = earlier i (omega arith) in
              (made, get_elem?-append_last clients last i ∙ ground (arith, l, d, f), numbered, out)
        ],
      )

-- On a command line of options with values, none of which is the name of an option, where the
-- address given or the default is a text: one that is shorter than `CONNECT_ADDR` is the server's,
-- if `from_string` takes it, and as many clients as the command line says or 100, with numbers from
-- 1001 on, are made and connect to the port that it says, in 16 bits, or 9001; a longer one stops
-- the process.
pub main_lem :
    (atoi : List ℕ → ℕ) (from_string : List ℕ → Bool) (lib : Library) (rand : ℕ → ℕ → ℕ)
    (read_buf program : List ℕ) (pairs : List (List ℕ × List ℕ))
    → IsCommandLine program pairs
    → IsText (ip_addr pairs)
    → (clients : List (DummyClient × List Action)) × (main atoi from_string lib rand read_buf
          (program ∷ words pairs)
        ≡ (if ltb (length (ip_addr pairs)) 32
            then returns (if from_string (ip_addr pairs) then some clients else none)
            else crashes))
      × AreConnecting
          (record { address = ip_addr pairs; port = port_of pairs atoi })
          clients
          (if ltb (session_of pairs atoi) (2 ^ 31) then session_of pairs atoi else 0)
unfolding main
main_lem atoi from_string lib rand read_buf program pairs cl h =
    let (addr, e, d) =
      Returns_value (strcpy_s (replicate 32 0) (default_addr ++ 0 ∷ [])) _ default_copied in
    let serv : Endpoint = record { address = ip_addr pairs; port = port_of pairs atoi } in
    let n = rounds (session_of pairs atoi) in
    (
      start lib rand read_buf serv n,
      rw (configured_by atoi program pairs addr cl e) (elim (dec_lt (length (ip_addr pairs)) 32) [
        | yes short ↦
            let (copy, f, g) =
              Returns_value (connect_addr_of addr (value_of pairs (codes "--ip"))) _
                (connect_addr_of_lem addr (value_of pairs (codes "--ip")) d.0 d.1 h short) in
            rw (f, g, lt→ltb _ _ short) refl
        | no long ↦
            rw
              (
                connect_addr_of_long addr (value_of pairs (codes "--ip")) d.0 h (omega arith),
                le→ltb_false (length (ip_addr pairs)) 32 (omega arith),
              )
              refl
      ]),
      start-AreConnecting lib rand read_buf serv n,
    )
