-- ===== src/CrashDump.antt =====
-- EasyServer/EasyServer/Exception.cpp: what happens to the process after an exception that nothing handles.
--
-- The threads of the snapshot and what the calls of the system answer are parameters; `none` for a
-- handle or a snapshot is a call that failed. What is done to threads, files and the process is a list
-- of actions.
pub mod Suspending
mod Tests
use easy_game_server.Prelude.{
  ℕ, ◌==◌, ◌&&◌, not, if◌then◌else◌, Bool, true, false, Option, none, some, List, [], ◌∷◌, ◌++◌,
}

-- `THREADENTRY32`.
pub record ThreadEntry : Type 0 where
  pub owner_process_id : ℕ
  pub thread_id : ℕ

pub record System : Type 0 where
  pub is_debugger_present : Bool
  pub my_thread_id : ℕ
  pub my_process_id : ℕ
  pub snapshot : Option (List ThreadEntry)
  pub opens : ℕ → Bool
  pub creates_file : Bool

pub data Action : Type 0 where
  suspends : ℕ → Action
  writes_dump : ℕ → Action
  exits : ℕ → Action

-- What the filter tells the system; `ExitProcess` does not return to tell anything.
pub data Filtered : Type 0 where
  continue_search : Filtered
  ended : List Action → Filtered

module _ (system : System) where
  open system use {is_debugger_present, my_thread_id, my_process_id, snapshot, opens, creates_file}

  -- The thread's id is written into the dump, with its exception.
  unfoldable pub make_dump : List Action
  make_dump = if creates_file then writes_dump my_thread_id ∷ [] else []

  abbrev pub suspended : ThreadEntry → List Action
  suspended te32 =
      if (te32.owner_process_id == my_process_id) && not (te32.thread_id == my_thread_id)
      then (if opens te32.thread_id then suspends te32.thread_id ∷ [] else [])
      else []

  -- The loop over the snapshot.
  unfoldable pub suspends_all : List ThreadEntry → List Action
  suspends_all [] = []
  suspends_all (te32 ∷ entries) = suspended te32 ++ suspends_all entries

  abbrev pub snapped : Option (List ThreadEntry) → List Action
  snapped none = []
  snapped (some entries) = suspends_all entries

  unfoldable pub exception_filter : Filtered
  unfolding make_dump suspends_all
  exception_filter =
      if is_debugger_present
      then continue_search
      else ended (snapped snapshot ++ (make_dump ++ (exits 1 ∷ [])))
