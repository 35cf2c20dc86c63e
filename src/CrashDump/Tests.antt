-- ===== src/CrashDump/Tests.antt =====
-- Three threads of the process 4, of which one has failed, and a thread of another process.
use easy_game_server.Prelude.{ℕ, ◌==◌, ◌&&◌, not, true, false, some, List, [], ◌∷◌, ◌++◌, ◌≡◌, refl}
use easy_game_server.CrashDump.{
  ThreadEntry, System, Action, suspends, writes_dump, exits, ended, make_dump, exception_filter,
  suspends_all,
}
use easy_game_server.CrashDump.Suspending.{stops, has_thread, only_suspends, exception_filter_lem}

abbrev threads : List ThreadEntry
threads =
    record { owner_process_id = 4; thread_id = 1 }
    ∷ record { owner_process_id = 9; thread_id = 2 }
    ∷ record { owner_process_id = 4; thread_id = 3 }
    ∷ record { owner_process_id = 4; thread_id = 5 }
    ∷ []

abbrev windows : System
windows = record {
  is_debugger_present = false;
  my_thread_id = 3;
  my_process_id = 4;
  snapshot = some threads;
  opens = λ id. true;
  creates_file = true;
}

run-windows :
    exception_filter windows ≡ ended (suspends 1 ∷ suspends 5 ∷ writes_dump 3 ∷ exits 1 ∷ [])
unfolding exception_filter make_dump suspends_all
run-windows = refl

exception_filter_lem_example :
    (before : List Action) × (exception_filter windows
      ≡ ended (before ++ (make_dump windows ++ (exits 1 ∷ []))))
    × (only_suspends before ≡ true)
    × ((id : ℕ) → stops id before ≡ (not (id == 3) && has_thread 4 id threads))
exception_filter_lem_example = exception_filter_lem windows
