-- ===== src/HelloWorld/Starting.antt =====
-- When the keys work, and when the first of them stops the process.
use easy_game_server.Prelude.{
  ℕ, ◌==◌, ◌<◌, ◌≡◌, refl, sym, ap, ◌∙◌, subst, Bool, true, false, ◌||◌, ◌&&◌, not, Option, none,
  some, List, [], ◌∷◌, Bool-cases, Option-cases, inl, inr, returns, crashes, arith, if◌then◌else◌,
}
use easy_game_server.PacketType.{LoginResult}
use easy_game_server.TcpClient.{Connection, TcpClient, login_received}
use easy_game_server.TcpClient.Sending.{IsTaking}
use easy_game_server.TcpClient.Starting.{
  Answers, Instance, connect, get_instance, initialize, new_instance,
}
use easy_game_server.HelloWorld.{HelloWorld, KeyCode, performed}
use easy_game_server.HelloWorld.Pressing.{
  Game, Event, releases, draws, logs_in, asks, logged_in, released, happens, plays,
}
use easy_game_server.HelloWorld.Keys.{key-Keeps}

-- A socket that takes at least one of the bytes offered, if it does not fail.
abbrev IsReady : Option Instance → Type 0
IsReady none = Unit
IsReady (some i) = IsTaking i.client.sock

logged_in-IsReady :
    (p : LoginResult) (made : Option Instance) → IsReady made → IsReady (logged_in p made)
unfolding login_received
logged_in-IsReady p none r = tt
logged_in-IsReady p (some i) r = r

connect-client :
    (a : Answers) (addr : List ℕ) (port : ℕ) (i : Instance)
    → (connect a addr port i).1.client ≡ i.client
unfolding connect
connect-client a addr port i = ground arith

abbrev pub initializes : Answers → List ℕ → Bool
initializes a block = (initialize a (new_instance block)).0

initialize-sock :
    (a : Answers) (block : List ℕ)
    → initializes a block ≡ true
    → (sock : Connection) × (a.socket ≡ some sock)
      × ((initialize a (new_instance block)).1.client.sock ≡ sock)
unfolding initialize
initialize-sock a block ok = elim (Bool-cases (a.wsa_startup == 0)) [
  | inl e ↦ elim (Option-cases a.socket) [
    | inl none_made ↦ absurd (ground (arith, ok, e, none_made))
    | inr (sock, f) ↦ (sock, f, rw (e, f) refl)
  ]
  | inr e ↦ absurd (ground (arith, ok, e))
]

-- The first call makes the instance, the later ones return it.
get_instance-IsReady :
    (a : Answers) (block : List ℕ) (made : Option Instance)
    → initializes a block ≡ true
    → ((sock : Connection) → a.socket ≡ some sock → IsTaking sock)
    → IsReady made
    → (i : Instance) × (get_instance a block made ≡ (some i, some i)) × IsTaking i.client.sock
unfolding get_instance
get_instance-IsReady a block (some i) ok t r = (i, refl, r)
get_instance-IsReady a block none ok t r =
    let (sock, e, f) = initialize-sock a block ok in
    let i = (initialize a (new_instance block)).1 in
    let g = connect-client a a.ipaddr a.port i in
    (
      (connect a a.ipaddr a.port i).1,
      rw ok refl,
      subst IsTaking (sym f ∙ ap (λ (c : TcpClient). c.sock) (sym g)) (t sock e),
    )

get_instance-fails :
    (a : Answers) (block : List ℕ)
    → initializes a block ≡ false
    → (get_instance a block none).0 ≡ none
unfolding get_instance
get_instance-fails a block e = rw e refl

module _ (plus_ten minus_ten : ℕ → ℕ) (a : Answers) (block : List ℕ) (fuel : ℕ)
    (ok : initializes a block ≡ true)
    (t : (sock : Connection) → a.socket ≡ some sock → IsTaking sock) (enough : 264 < fuel) where
  happens-IsReady :
      (e : Event) (g : Game)
      → IsReady g.instance_made
      → (g' : Game) × (happens plus_ten minus_ten a block fuel e g ≡ returns (some g'))
        × IsReady g'.instance_made
  unfolding happens released login_received
  happens-IsReady (draws call) g r = (record g { scene = performed g.scene call }, refl, r)
  happens-IsReady (logs_in p) g r = (
    record g { instance_made = logged_in p g.instance_made },
    refl,
    logged_in-IsReady p g.instance_made r,
  )
  happens-IsReady (releases key random) g r = elim (Bool-cases (asks key)) [
    | inr e ↦ (g, rw e refl, r)
    | inl e ↦
        let (i, f, taking) = get_instance-IsReady a block g.instance_made ok t r in
        let (c, k, same) =
          key-Keeps fuel i.client taking enough plus_ten minus_ten random g.scene key in
        (
          record g { instance_made = some (record i { client = c }) },
          rw (e, f, k) refl,
          λ l m n took. taking l m n (sym (ap (λ takes. takes l m) same) ∙ took),
        )
  ]

  plays_returns :
      (es : List Event) (g : Game)
      → IsReady g.instance_made
      → (g' : Game) × (plays plus_ten minus_ten a block fuel es g ≡ returns (some g'))
  unfolding plays
  plays_returns [] g r = (g, refl)
  plays_returns (e ∷ es) g r =
      let (g', f, r') = happens-IsReady e g r in
      let (g'', f') = plays_returns es g' r' in (g'', rw (f, f') refl)

abbrev pub asks_once : List Event → Bool
asks_once [] = false
asks_once (releases key random ∷ es) = asks key || asks_once es
asks_once (draws call ∷ es) = asks_once es
asks_once (logs_in p ∷ es) = asks_once es

module _ (plus_ten minus_ten : ℕ → ℕ) (a : Answers) (block : List ℕ) (fuel : ℕ) where
  released-none :
      (key : KeyCode) (random : ℕ) (g : Game) (p : Option Instance × Option Instance)
      → p.0 ≡ none
      → released plus_ten minus_ten a block fuel key random g p ≡ crashes
  unfolding released
  released-none key random g (none, made) e = refl
  released-none key random g (some i, made) e = absurd (ground (arith, e))

  plays_crashes :
      (es : List Event) (g : Game)
      → initializes a block ≡ false
      → g.instance_made ≡ none
      → asks_once es ≡ true
      → plays plus_ten minus_ten a block fuel es g ≡ crashes
  unfolding plays happens
  plays_crashes [] g e h k = absurd (ground (arith, k))
  plays_crashes (draws call ∷ es) g e h k =
      plays_crashes es (record g { scene = performed g.scene call }) e h k
  plays_crashes (logs_in p ∷ es) g e h k =
      plays_crashes es (record g { instance_made = logged_in p g.instance_made }) e
        (ap (logged_in p) h) k
  plays_crashes (releases key random ∷ es) g e h k = elim (Bool-cases (asks key)) [
    | inl f ↦
        rw
          (
            f,
            released-none key random g (get_instance a block g.instance_made)
                (ap (λ made. (get_instance a block made).0) h ∙ get_instance-fails a block e),
          )
          refl
    | inr f ↦ rw f (plays_crashes es g e h (ground (arith, f, k)))
  ]

  plays_idle :
      (es : List Event) (g : Game)
      → asks_once es ≡ false
      → (g' : Game) × (plays plus_ten minus_ten a block fuel es g ≡ returns (some g'))
  unfolding plays happens
  plays_idle [] g k = (g, refl)
  plays_idle (draws call ∷ es) g k = plays_idle es (record g { scene = performed g.scene call }) k
  plays_idle (logs_in p ∷ es) g k =
      plays_idle es (record g { instance_made = logged_in p g.instance_made }) k
  plays_idle (releases key random ∷ es) g k = elim (Bool-cases (asks key)) [
    | inl f ↦ absurd (ground (arith, f, k))
    | inr f ↦ rw f (plays_idle es g (ground (arith, f, k)))
  ]

-- A game without a client yet, on any keys, calls of the network thread and results of logins, on sockets
-- that take at least one of the bytes offered if they do not fail, given more rounds of `send` than a
-- request has bytes: where `initialize` fails, the first key that asks something of the client stops the
-- process; else, whether `connect` fails or not, nothing does and every call returns.
pub plays_lem :
    (plus_ten minus_ten : ℕ → ℕ) (a : Answers) (block : List ℕ) (fuel : ℕ) (es : List Event)
    (h : HelloWorld)
    → ((sock : Connection) → a.socket ≡ some sock → IsTaking sock)
    → 264 < fuel
    → let m =
        plays plus_ten minus_ten a block fuel es (record { scene = h; instance_made = none }) in
      if asks_once es && not (initializes a block)
      then m ≡ crashes
      else ((g : Game) × (m ≡ returns (some g)))
plays_lem plus_ten minus_ten a block fuel es h t enough = elim (Bool-cases (initializes a block)) [
  | inl ok ↦
      let (g, e) =
        plays_returns plus_ten minus_ten a block fuel ok t enough es
          (record { scene = h; instance_made = none }) tt in
      elim (Bool-cases (asks_once es)) [ inl k ↦ rw (ok, k) (g, e) | inr k ↦ rw (ok, k) (g, e) ]
  | inr e ↦ elim (Bool-cases (asks_once es)) [
    | inl k ↦ rw (e, k) (plays_crashes plus_ten minus_ten a block fuel es _ e refl k)
    | inr k ↦ rw k (plays_idle plus_ten minus_ten a block fuel es _ k)
  ]
]
