-- ===== src/PacketHandling/References/History.antt =====
-- Everything that can happen to a session, in any order.
use easy_game_server.Prelude.{
  ℕ, ◌+◌, ◌-◌, ◌%◌, ◌^◌, ◌≤◌, ◌<◌, ◌≡◌, subst, ◌==◌, Bool, true, Option, some, if◌then◌else◌, List,
  [], arith, Outcome, returns, crashes, ◌>>=◌, inl, inr, Outcome-cases,
}
use easy_game_server.DatabaseJobContext.{DatabaseJob}
use easy_game_server.ClientSession.{
  ClientSession, Effect, Casts, dec_ref_count, disconnect, on_connect, send_request, send_flush,
  on_tick, on_db_update, database_job_done,
}
use easy_game_server.PacketHandling.{recv_completion, send_completion}
use easy_game_server.PacketHandling.References.{
  holds, Counted, Counts, disconnect-ref_count, send_request-ref_count, post_recv-Counted,
  send_flush-Counted, on_tick-Counted, on_db_update-Counts, database_job_done-Counts,
}
use easy_game_server.PacketHandling.References.Reading.{
  MayCount, recv_completion-MayCount, send_completion-ref_count,
}
use easy_game_server.ClientManager.{is_garbage}

-- `ticks` and `updates` are tasks that the scheduler runs: it releases the session afterwards.
pub data Event : Type 0 where
  connects : Event
  receives : ℕ → Bool → ℕ → List ℕ → Event
  has_sent : Bool → ℕ → Event
  requests : List ℕ → Event
  flushes : Event
  ticks : Event
  updates : Event
  is_answered : DatabaseJob → Event
  disconnects : Event

-- How many references are given back.
abbrev pub released : Event → ℕ
released (receives fuel failed p bytes) = 1
released (has_sent failed n) = 1
released ticks = 1
released updates = 1
released _ = 0

abbrev released_by : Outcome (ClientSession × List Effect) → Outcome (ClientSession × List Effect)
released_by outcome = outcome >>= λ (s, effects). returns (dec_ref_count s, effects)

-- A session, and how many operations and tasks that it has started are not done.
pub record Life : Type 0 where
  pub session : ClientSession
  pub pending : ℕ

module _ (casts : Casts) where
  -- What an event does with a session, if it returns.
  unfoldable pub happens : ClientSession → Event → Option (Outcome (ClientSession × List Effect))
  happens s connects = some (returns ((on_connect s).1, (on_connect s).2))
  happens s (receives fuel failed p bytes) = recv_completion fuel s failed p bytes
  happens s (has_sent failed n) = some (send_completion s failed n >>= λ t. returns (t, []))
  happens s (requests packet) = some (returns ((send_request s packet).1, []))
  happens s flushes = some (returns ((send_flush s).1, (send_flush s).2))
  happens s ticks = some (released_by (returns (on_tick s)))
  happens s updates = some (released_by (on_db_update casts s))
  happens s (is_answered job) = some (database_job_done casts s job)
  happens s disconnects = some (returns (disconnect s, []))

  pub data Step : Life → Life → Type 0 where
    step :
        {l : Life} (event : Event) (t : ClientSession) (effects : List Effect)
        → released event ≤ l.pending
        → happens l.session event ≡ some (returns (t, effects))
        → Step l (record { session = t; pending = l.pending + holds effects - released event })

  pub data Reach (l : Life) : Life → Type 0 where
    here : Reach l l
    next : {m n : Life} → Reach l m → Step m n → Reach l n

  released-Counts :
      (s : ClientSession) (o : Outcome (ClientSession × List Effect))
      → Counts s o
      → Counts (dec_ref_count s) (released_by o)
  released-Counts s crashes h = tt
  released-Counts s (returns (t, effects)) h = omega (arith, h)

  abbrev before : ClientSession → Event → ClientSession
  before s event = if released event == 1 then dec_ref_count s else s

  happens-MayCount :
      (s : ClientSession) (event : Event) → MayCount (before s event) (happens s event)
  unfolding happens on_connect
  happens-MayCount s connects = omega (arith, post_recv-Counted (record s { connected = true }))
  happens-MayCount s (receives fuel failed p bytes) = recv_completion-MayCount fuel s failed p bytes
  happens-MayCount s (has_sent failed n) = elim (Outcome-cases (send_completion s failed n)) [
    | inl e ↦ rw e tt
    | inr (t, e) ↦ rw e (omega (arith, send_completion-ref_count s t failed n e))
  ]
  happens-MayCount s (requests packet) = omega (arith, send_request-ref_count s packet)
  happens-MayCount s flushes = send_flush-Counted s
  happens-MayCount s ticks = released-Counts s (returns (on_tick s)) (on_tick-Counted s)
  happens-MayCount s updates =
      released-Counts s (on_db_update casts s) (on_db_update-Counts casts s)
  happens-MayCount s (is_answered job) = database_job_done-Counts casts s job
  happens-MayCount s disconnects = omega (arith, disconnect-ref_count s)

  abbrev IsCounted : Life → Type 0
  IsCounted l = l.session.ref_count % 2 ^ 32 ≡ l.pending % 2 ^ 32

  Step-IsCounted : {l m : Life} → Step l m → IsCounted l → IsCounted m
  Step-IsCounted {l} (step event t effects enough e) h =
      counted event enough
        (subst (MayCount (before l.session event)) e (happens-MayCount l.session event))
    where
      counted :
          (event : Event)
          → released event ≤ l.pending
          → Counted (before l.session event) (t, effects)
          → t.ref_count % 2 ^ 32 ≡ (l.pending + holds effects - released event) % 2 ^ 32
      counted connects enough k = omega (arith, h, k)
      counted (receives fuel failed p bytes) enough k = omega (arith, h, k)
      counted (has_sent failed n) enough k = omega (arith, h, k)
      counted (requests packet) enough k = omega (arith, h, k)
      counted flushes enough k = omega (arith, h, k)
      counted ticks enough k = omega (arith, h, k)
      counted updates enough k = omega (arith, h, k)
      counted (is_answered job) enough k = omega (arith, h, k)
      counted disconnects enough k = omega (arith, h, k)

  Reach-IsCounted : {l m : Life} → IsCounted l → Reach l m → IsCounted m
  Reach-IsCounted h here = h
  Reach-IsCounted h (next r s) = Step-IsCounted s (Reach-IsCounted h r)

  -- Whatever happens to a session, in any order, where each completion and each task that runs is of
  -- one that was started: `mRefCount` is the number of those not done, in 32 bits. A session that
  -- garbage collection would delete has none left, if they are fewer than 2 ^ 32.
  pub reference_count_lem :
      {l m : Life}
      → l.session.ref_count ≡ 0
      → l.pending ≡ 0
      → Reach l m
      → (m.session.ref_count % 2 ^ 32 ≡ m.pending % 2 ^ 32)
        × (is_garbage m.session ≡ true → m.pending < 2 ^ 32 → m.pending ≡ 0)
  reference_count_lem {l} {m} none_held none_pending r =
      let h : IsCounted m = Reach-IsCounted (omega arith) r in
      (h, λ g few. ground (arith, g, few, h))
