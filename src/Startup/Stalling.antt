-- ===== src/Startup/Stalling.antt =====
-- The accept loop while nothing takes the sockets out of the queue.
use easy_game_server.Prelude.{
  leb, Bool, ◌≡◌, refl, ap, ◌∙◌, if◌then◌else◌, true, false, Option, none, some, List, [], ◌∷◌,
  ◌++◌, length, length-append, append-nil, append_assoc, arith,
}
use easy_game_server.ProducerConsumerQueue
use easy_game_server.ProducerConsumerQueue.{ProducerConsumerQueue, Attempt, sleeps, finishes}
use easy_game_server.ProducerConsumerQueue.Refine.{
  IsValid, contents, length-contents, produce_refines, view, After,
}
use easy_game_server.ProducerConsumerQueue.Fifo
use easy_game_server.ClientSession.{Socket}
use easy_game_server.Startup.{pending_size, accepts_all}

-- The sockets among what `accept` gave.
abbrev pub sockets : List (Option Socket) → List Socket
sockets [] = []
sockets (none ∷ later) = sockets later
sockets (some socket ∷ later) = socket ∷ sockets later

-- What is in the queue when the loop comes to its next `accept`.
abbrev pub items : Attempt (ProducerConsumerQueue Socket) → Attempt (List Socket)
items sleeps = sleeps
items (finishes q) = finishes (contents q)

full :
    (items : List Socket) (socket : Socket) (later : List Socket)
    → sleeps ≡ Fifo.produce pending_size items socket true
    → leb (length (items ++ (socket ∷ later))) pending_size ≡ false
full items socket later e = ground (arith, e, length-append items (socket ∷ later))

room :
    (items items' : List Socket) (ok : Bool) (socket : Socket)
    → finishes (ok, items') ≡ Fifo.produce pending_size items socket true
    → items' ≡ items ++ (socket ∷ [])
room items items' ok socket e = ground (arith, e)

-- In a valid queue all accepted sockets wait in their order, as long as there is room; the one for which
-- there is none puts the main thread to sleep, when no other thread consumes.
pub accepts_all_lem :
    (given : List (Option Socket)) (q : ProducerConsumerQueue Socket)
    → IsValid pending_size q
    → items (accepts_all q given) ≡ (
        if leb (length (contents q ++ sockets given)) pending_size
        then finishes (contents q ++ sockets given)
        else sleeps)
unfolding accepts_all
accepts_all_lem [] q v =
    let fits : leb (length (contents q)) pending_size ≡ true =
      ground (arith, v, length-contents pending_size v) in
    rw (append-nil (contents q), fits) refl
accepts_all_lem (none ∷ later) q v = accepts_all_lem later q v
accepts_all_lem (some socket ∷ later) q v =
    let (e, after) = produce_refines pending_size socket true v in
    go (ProducerConsumerQueue.produce pending_size q socket true) e after
      λ q' w. accepts_all_lem later q' w
  where
    go :
        (m : Attempt (Bool × ProducerConsumerQueue Socket))
        → view m ≡ Fifo.produce pending_size (contents q) socket true
        → After (IsValid pending_size) m
        → ((q' : ProducerConsumerQueue Socket)
            → IsValid pending_size q'
            → items (accepts_all q' later) ≡ (
                if leb (length (contents q' ++ sockets later)) pending_size
                then finishes (contents q' ++ sockets later)
                else sleeps))
        → items (elim m [ sleeps ↦ sleeps | finishes (ok, pending') ↦ accepts_all pending' later ])
          ≡ (if leb (length (contents q ++ (socket ∷ sockets later))) pending_size
              then finishes (contents q ++ (socket ∷ sockets later))
              else sleeps)
    go sleeps e after rest = rw (full (contents q) socket (sockets later) e) refl
    go (finishes (ok, q')) e after rest =
        let same : contents q' ++ sockets later ≡ contents q ++ (socket ∷ sockets later) =
          ap (λ xs. xs ++ sockets later) (room (contents q) (contents q') ok socket e)
          ∙ append_assoc (contents q) (socket ∷ []) (sockets later) in
        rw (← same) (rest q' after)
