-- ===== src/CrashDump/Suspending.antt =====
-- Which threads stand still while the dump is written.
use easy_game_server.Prelude.{
  ℕ, ◌==◌, ◌&&◌, ◌||◌, not, if◌then◌else◌, Bool, true, false, Option, none, some, List, [], ◌∷◌,
  ◌++◌, ◌≡◌, refl, arith, ℕ_discrete,
}
use easy_game_server.CrashDump.{
  ThreadEntry, System, Action, suspends, writes_dump, exits, ended, continue_search, make_dump,
  suspended, suspends_all, snapped, exception_filter,
}

-- Whether the actions suspend the thread.
abbrev pub stops : ℕ → List Action → Bool
stops id [] = false
stops id (suspends id' ∷ actions) = (id == id') || stops id actions
stops id (writes_dump id' ∷ actions) = stops id actions
stops id (exits code ∷ actions) = stops id actions

-- Whether the thread is one of the process in the snapshot.
abbrev pub has_thread : ℕ → ℕ → List ThreadEntry → Bool
has_thread process id [] = false
has_thread process id (te32 ∷ entries) =
    ((te32.owner_process_id == process) && (id == te32.thread_id)) || has_thread process id entries

abbrev pub entries_of : Option (List ThreadEntry) → List ThreadEntry
entries_of none = []
entries_of (some entries) = entries

abbrev pub only_suspends : List Action → Bool
only_suspends [] = true
only_suspends (suspends id ∷ actions) = only_suspends actions
only_suspends (writes_dump id ∷ actions) = false
only_suspends (exits code ∷ actions) = false

-- A thread of the process, other than the filter's own, that can be opened.
abbrev pub is_other : System → ℕ → Bool
is_other system id = system.opens id && not (id == system.my_thread_id)

stops-append : (id : ℕ) (xs ys : List Action) → stops id (xs ++ ys) ≡ (stops id xs || stops id ys)
stops-append id [] ys = refl
stops-append id (suspends id' ∷ xs) ys = ground (arith, stops-append id xs ys)
stops-append id (writes_dump id' ∷ xs) ys = stops-append id xs ys
stops-append id (exits code ∷ xs) ys = stops-append id xs ys

only_suspends-append :
    (xs ys : List Action) → only_suspends (xs ++ ys) ≡ (only_suspends xs && only_suspends ys)
only_suspends-append [] ys = refl
only_suspends-append (suspends id ∷ xs) ys = only_suspends-append xs ys
only_suspends-append (writes_dump id ∷ xs) ys = refl
only_suspends-append (exits code ∷ xs) ys = refl

stops-suspended :
    (system : System) (id : ℕ) (te32 : ThreadEntry)
    → stops id (suspended system te32) ≡ (
        is_other system id
        && ((te32.owner_process_id == system.my_process_id) && (id == te32.thread_id)))
stops-suspended system id te32 = elim (ℕ_discrete id te32.thread_id) [
  | yes e ↦ rw e (ground arith)
  | no n ↦ ground (arith, n)
]

only_suspends-suspended :
    (system : System) (te32 : ThreadEntry) → only_suspends (suspended system te32) ≡ true
only_suspends-suspended system te32 = ground arith

suspends_all_lem :
    (system : System) (entries : List ThreadEntry)
    → (only_suspends (suspends_all system entries) ≡ true)
      × ((id : ℕ)
          → stops id (suspends_all system entries)
            ≡ (is_other system id && has_thread system.my_process_id id entries))
unfolding suspends_all
suspends_all_lem system [] = (refl, λ id. ground arith)
suspends_all_lem system (te32 ∷ entries) =
    let rest = suspends_all_lem system entries in
    (
      ground (
        arith,
        only_suspends-append (suspended system te32) (suspends_all system entries),
        only_suspends-suspended system te32,
        rest.0,
      ),
      λ id.
          rw
            (
              stops-append id (suspended system te32) (suspends_all system entries),
              stops-suspended system id te32,
              rest.1 id,
            )
            (ground arith),
    )

snapped_lem :
    (system : System) (entries : Option (List ThreadEntry))
    → (only_suspends (snapped system entries) ≡ true)
      × ((id : ℕ)
          → stops id (snapped system entries)
            ≡ (is_other system id && has_thread system.my_process_id id (entries_of entries)))
snapped_lem system none = (refl, λ id. ground arith)
snapped_lem system (some entries) = suspends_all_lem system entries

-- With a debugger the filter leaves the exception to it. Else it first suspends exactly the threads
-- of its process in the snapshot that it can open, but never its own; then it writes the dump,
-- and the process ends with the code 1, whether the snapshot and the file could be made or not.
pub exception_filter_lem :
    (system : System)
    → (before : List Action) × (exception_filter system ≡ (
        if system.is_debugger_present
        then continue_search
        else ended (before ++ (make_dump system ++ (exits 1 ∷ [])))))
      × (only_suspends before ≡ true)
      × ((id : ℕ)
          → stops id before ≡ (
              is_other system id
              && has_thread system.my_process_id id (entries_of system.snapshot)))
unfolding exception_filter
exception_filter_lem system =
    let s = snapped_lem system system.snapshot in (snapped system system.snapshot, refl, s.0, s.1)
