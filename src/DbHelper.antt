-- ===== src/DbHelper.antt =====
-- EasyServer/EasyServer/DbHelper.h and DbHelper.cpp: a prepared statement of sqlite3 with the counters
-- of its parameters and columns.
--
-- sqlite3 itself is not part of the repository's code: `Sqlite` is what is called of it, and the
-- definitions take it as a parameter.
pub mod Laws
use easy_game_server.Prelude.{
  ℕ, suc, ◌+◌, ◌<◌, ltb, if◌then◌else◌, Bool, true, false, not, Option, none, some, List, take,
  length, Outcome, returns, crashes, ◌>>=◌, ◌>>◌, assert, string,
}

-- What `sqlite3_step` returns: `SQLITE_ROW`, `SQLITE_DONE` or any other code.
pub data Step : Type 0 where
  row done other : Step

-- The calls of sqlite3. A flag says whether the code was `SQLITE_OK`; a statement or database that the
-- call changes comes back as the last component; a null pointer is `none`.
pub record Sqlite (Db Stmt : Type 0) : Type 0 where
  pub open_database : List ℕ → Bool × Option Db
  pub close : Db → Db
  pub exec : Db → List ℕ → Bool × Db
  pub prepare : Db → List ℕ → Option Stmt
  pub bind_int : Stmt → ℕ → ℕ → Bool × Stmt
  pub bind_double : Stmt → ℕ → ℕ → Bool × Stmt
  pub bind_text : Stmt → ℕ → List ℕ → Bool × Stmt
  pub step : Db → Stmt → Step × Db × Stmt
  pub finalize : Db → Stmt → Db
  pub column_count : Stmt → ℕ
  pub column_int : Stmt → ℕ → ℕ
  pub column_double : Stmt → ℕ → ℕ
  pub column_text : Stmt → ℕ → Option (List ℕ)

pub data ResultType : Type 0 where
  result_error result_row result_done : ResultType

-- `mResult`, its columns, and the counters of what has been bound and read.
pub record DbHelper (Stmt : Type 0) : Type 0 where
  pub result : Stmt
  pub result_col_count : ℕ
  pub bind_col_count : ℕ
  pub result_current_col : ℕ

module _ {Db Stmt : Type 0} (sqlite : Sqlite Db Stmt) where
  open sqlite use {
    open_database, close, exec, prepare, bind_int, bind_double, bind_text, step, finalize,
    column_count, column_int, column_double, column_text,
  }

  abbrev prepared : Option Stmt → Outcome (DbHelper Stmt)
  prepared none = crashes
  prepared (some stmt) =
      returns
        (record { result = stmt; result_col_count = 0; bind_col_count = 0; result_current_col = 0 })

  -- The constructor, on the open database. A statement that sqlite3 refuses fails the assertion.
  unfoldable pub init : Db → List ℕ → Outcome (DbHelper Stmt)
  init db sql = prepared (prepare db sql)

  -- The destructor.
  abbrev pub destroy : Db → DbHelper Stmt → Db
  destroy db h = finalize db h.result

  -- `Initialize` leaves `mSqlite`, which is `none` when it is null.
  unfoldable pub initialize : List ℕ → Bool × Option Db
  initialize conn_info =
      let (ok, db) = open_database conn_info in (elim db [ none ↦ false | some _ ↦ ok ], db)

  -- `Finalize` closes the database and leaves `mSqlite`.
  unfoldable pub finalized : Option Db → Option Db
  finalized none = none
  finalized (some db) = some (close db)

  -- The text is what the format and its arguments print as; `none` is a null format. The buffer has
  -- 1024 bytes, and `vsnprintf_s` stops the process where the text and its 0 do not fit.
  unfoldable pub execute : Option Db → Option (List ℕ) → Outcome (Bool × Option Db)
  execute db none = returns (false, db)
  execute none (some text) = returns (false, none)
  execute (some db) (some text) =
      if ltb (length text) 1024
      then (let (ok, db') = exec db text in returns (ok, some db'))
      else crashes

  -- A statement with the next parameter bound, or not bound where sqlite3 refuses.
  abbrev bound : DbHelper Stmt → Bool × Stmt → Bool × DbHelper Stmt
  bound h (ok, stmt) = (ok, record h { result = stmt; bind_col_count = h.bind_col_count + 1 })

  unfoldable pub bind_param_int : DbHelper Stmt → ℕ → Bool × DbHelper Stmt
  bind_param_int h param = bound h (bind_int h.result (h.bind_col_count + 1) param)

  unfoldable pub bind_param_double : DbHelper Stmt → ℕ → Bool × DbHelper Stmt
  bind_param_double h param = bound h (bind_double h.result (h.bind_col_count + 1) param)

  -- `count` is not used by the code.
  unfoldable pub bind_param_text : DbHelper Stmt → List ℕ → Outcome (Bool × DbHelper Stmt)
  bind_param_text h text =
      string text >>= λ bytes. returns (bound h (bind_text h.result (h.bind_col_count + 1) bytes))

  abbrev fetched : DbHelper Stmt → Step × Db × Stmt → ResultType × Db × DbHelper Stmt
  fetched h (other, db, stmt) = (result_error, db, record h { result = stmt })
  fetched h (done, db, stmt) = (result_done, db, record h { result = stmt })
  fetched h (row, db, stmt) = (
    result_row,
    db,
    record h { result = stmt; result_col_count = column_count stmt; result_current_col = 0 },
  )

  unfoldable pub fetch_row : Db → DbHelper Stmt → ResultType × Db × DbHelper Stmt
  fetch_row db h = fetched h (step db h.result)

  -- A column that there is, by the one of the three calls that fits.
  abbrev next_column {ℓ} :
      {A : Type ℓ} → (Stmt → ℕ → A) → DbHelper Stmt → Outcome (A × DbHelper Stmt)
  next_column column h =
      assert (ltb h.result_current_col h.result_col_count)
      >> returns (
        column h.result h.result_current_col,
        record h { result_current_col = h.result_current_col + 1 },
      )

  unfoldable pub get_result_param_int : DbHelper Stmt → Outcome (ℕ × DbHelper Stmt)
  get_result_param_int = next_column column_int

  unfoldable pub get_result_param_double : DbHelper Stmt → Outcome (ℕ × DbHelper Stmt)
  get_result_param_double = next_column column_double

  unfoldable pub get_result_param_text : DbHelper Stmt → Outcome (Option (List ℕ) × DbHelper Stmt)
  get_result_param_text = next_column column_text
