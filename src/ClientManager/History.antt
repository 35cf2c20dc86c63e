-- ===== src/ClientManager/History.antt =====
-- Any sequence of the client thread's calls on the client manager.
use easy_game_server.Prelude.{
  All, ℕ, ◌^◌, ◌<◌, ◌≡◌, refl, if◌then◌else◌, Bool, true, false, Option, none, some, List, [], ◌∷◌,
  leb, sub_size, length, Outcome, returns, ◌>>=◌, Returns, Returns->>=, crashes,
}
use easy_game_server.DatabaseJobContext.{DatabaseJob}
use easy_game_server.ClientSession.{ClientSession, Effect, Socket, Casts}
use easy_game_server.ClientManager.Acting.{Act, act, act-Continues}
use easy_game_server.ClientManager.Handling.{ContinuesIfDone}
use easy_game_server.ClientManager.{
  ClientManager, create_client, broadcast_packet, flush_client_send, collect_garbage_sessions,
  dispatch_database_job_results, on_period_work,
}
use easy_game_server.ClientManager.Heap.{lookup, store}
use easy_game_server.ClientManager.Invariant.{IsSession, Keeps-IsMap}
use easy_game_server.ClientManager.Creating.{
  IsWellFormed, create_client-IsWellFormed, broadcast_packet-IsWellFormed,
  flush_client_send-IsWellFormed,
}
use easy_game_server.ClientManager.Erasing.{collect_garbage_sessions-IsWellFormed}
use easy_game_server.ClientManager.Delivering.{
  IsNamed, Keeps-store, dispatch_database_job_results-IsWellFormed,
}

-- `acts` is what the session at an address does of its own, such as a completed receive. What it asks
-- of the client manager then is a call of its own.
pub data Call : Type 0 where
  creates : Socket → List ℕ → List ℕ → Call
  broadcasts : ℕ → List ℕ → Call
  flushes : Call
  works : ℕ → List DatabaseJob → Call
  acts : ℕ → Act → Call

abbrev pub IsCall : Call → Type 0
IsCall (creates socket send_block recv_block) =
    (length send_block < 2 ^ 31) × (length recv_block < 2 ^ 31)
IsCall (broadcasts from packet) = Unit
IsCall flushes = Unit
IsCall (works tick results) = All IsNamed results
IsCall (acts a what) = Unit

-- The client manager, or that what a session does stopped the process or does not end.
pub data Course : Type 0 where
  goes_on : ClientManager → Course
  is_broken_off : Course

abbrev goes_on_with : Outcome ClientManager → Outcome Course
goes_on_with outcome = outcome >>= λ m. returns (goes_on m)

-- A cell of which the session does something.
abbrev acted : ClientManager → ℕ → Option (Outcome (ClientSession × List Effect)) → Course
acted m a none = is_broken_off
acted m a (some crashes) = is_broken_off
acted m a (some (returns (t, effects))) =
    goes_on (record m { sessions = store m.sessions a (some t) })

abbrev pub GoesOnWell : Course → Type 0
GoesOnWell is_broken_off = Unit
GoesOnWell (goes_on m) = IsWellFormed m

module _ (casts : Casts) where
  -- Where no session lives, nothing is done.
  abbrev acts_at : ClientManager → ℕ → Act → Option ClientSession → Course
  acts_at m a what none = goes_on m
  acts_at m a what (some s) = acted m a (act casts s what)

  unfoldable pub perform : ClientManager → Call → Outcome Course
  perform m (creates socket send_block recv_block) =
      returns (goes_on (create_client m socket send_block recv_block).1)
  perform m (broadcasts from packet) = goes_on_with (broadcast_packet m from packet)
  perform m flushes = goes_on_with (flush_client_send m >>= λ (after, effects). returns after)
  perform m (works tick results) =
      goes_on_with (on_period_work casts tick m results >>= λ (after, effects). returns after)
  perform m (acts a what) = returns (acts_at m a what (lookup m.sessions a))

  unfoldable pub run : ClientManager → List Call → Outcome Course
  run m [] = returns (goes_on m)
  run m (call ∷ calls) = perform m call >>= λ course. elim course [
    | goes_on after ↦ run after calls
    | is_broken_off ↦ returns is_broken_off
  ]

  acted-GoesOnWell :
      (m : ClientManager) (a : ℕ) (s : ClientSession)
      (o : Option (Outcome (ClientSession × List Effect)))
      → lookup m.sessions a ≡ some s
      → (IsSession s → ContinuesIfDone s o)
      → IsWellFormed m
      → GoesOnWell (acted m a o)
  acted-GoesOnWell m a s none e h w = tt
  acted-GoesOnWell m a s (some crashes) e h w = tt
  acted-GoesOnWell m a s (some (returns (t, effects))) e h w =
      Keeps-IsMap m.sessions (store m.sessions a (some t)) m.client_list
        (Keeps-store m.sessions a s t e h) w

  on_period_work-IsWellFormed :
      (tick : ℕ) (m : ClientManager) (results : List DatabaseJob)
      → All IsNamed results
      → IsWellFormed m
      → Returns (on_period_work casts tick m results) λ (after, effects). IsWellFormed after
  unfolding on_period_work
  on_period_work-IsWellFormed tick m results named w = go (leb 1000 (sub_size tick m.last_gc_tick))
    where
      go :
          (due : Bool)
          → Returns
              ((if due
                  then (collect_garbage_sessions m >>= λ m'.
                      returns (record m' { last_gc_tick = tick }))
                  else returns m)
                >>= λ m'. dispatch_database_job_results casts m' results)
              λ (after, effects). IsWellFormed after
      go true =
          Returns->>=
            (collect_garbage_sessions m >>= λ m'. returns (record m' { last_gc_tick = tick })) _
            IsWellFormed _
            (Returns->>= (collect_garbage_sessions m) _ _ _
              (collect_garbage_sessions-IsWellFormed m w) λ m' kept. kept.0)
            λ m' good. dispatch_database_job_results-IsWellFormed casts m' results named good
      go false = dispatch_database_job_results-IsWellFormed casts m results named w

  goes_on_with-GoesOnWell :
      (outcome : Outcome ClientManager)
      → Returns outcome IsWellFormed
      → Returns (goes_on_with outcome) GoesOnWell
  goes_on_with-GoesOnWell outcome h = Returns->>= outcome _ _ _ h λ m good. good

  perform-GoesOnWell :
      (m : ClientManager) (call : Call)
      → IsCall call
      → IsWellFormed m
      → Returns (perform m call) GoesOnWell
  unfolding perform
  perform-GoesOnWell m (creates socket send_block recv_block) h w =
      create_client-IsWellFormed m socket send_block recv_block h.0 h.1 w
  perform-GoesOnWell m (broadcasts from packet) h w =
      goes_on_with-GoesOnWell (broadcast_packet m from packet)
        (broadcast_packet-IsWellFormed m from packet w)
  perform-GoesOnWell m flushes h w =
      goes_on_with-GoesOnWell (flush_client_send m >>= λ (after, effects). returns after) (
        Returns->>= (flush_client_send m) _ _ _ (flush_client_send-IsWellFormed m w)
          λ after good. good)
  perform-GoesOnWell m (works tick results) h w =
      goes_on_with-GoesOnWell
        (on_period_work casts tick m results >>= λ (after, effects). returns after)
        (Returns->>= (on_period_work casts tick m results) _ _ _
          (on_period_work-IsWellFormed tick m results h w) λ after good. good)
  perform-GoesOnWell m (acts a what) h w = go (lookup m.sessions a) refl
    where
      go :
          (cell : Option ClientSession)
          → lookup m.sessions a ≡ cell
          → GoesOnWell (acts_at m a what cell)
      go none e = w
      go (some s) e = acted-GoesOnWell m a s (act casts s what) e (act-Continues casts s what) w

  -- On a well-formed client manager, calls of its methods, in any order, and between them completed
  -- receives and sends, requests, tasks and disconnections of any sessions, with any bytes; the
  -- names of players loaded end with a 0, and the buffers of new sessions have fewer than 2 ^ 31
  -- bytes. No call of the client manager stops the process. As long as no session does so either,
  -- and each comes to an end with what it does, the client list stays in the order of its sockets,
  -- and each entry has its own session, which lives, is sound, and has the entry's socket.
  pub run-IsWellFormed :
      (m : ClientManager) (calls : List Call)
      → All IsCall calls
      → IsWellFormed m
      → Returns (run m calls) GoesOnWell
  unfolding run
  run-IsWellFormed m [] h w = w
  run-IsWellFormed m (call ∷ calls) h w =
      Returns->>= (perform m call) _ GoesOnWell _ (perform-GoesOnWell m call h.0 w)
        (go λ after good. run-IsWellFormed after calls h.1 good)
    where
      go :
          ((after : ClientManager) → IsWellFormed after → Returns (run after calls) GoesOnWell)
          → (course : Course) → GoesOnWell course
          → Returns
              (elim course [
                | goes_on after ↦ run after calls
                | is_broken_off ↦ returns is_broken_off
              ])
              GoesOnWell
      go later (goes_on after) good = later after good
      go later is_broken_off good = tt
