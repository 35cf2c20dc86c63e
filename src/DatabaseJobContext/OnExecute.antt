-- ===== src/DatabaseJobContext/OnExecute.antt =====
-- EasyServer/EasyServer/DatabaseJobContext.cpp and SQLStatement.h: what the database thread does with a
-- job. Each `on_execute_` returns the result of `OnExecute`, the job and the database that it leaves;
-- the results of the calls that bind are not looked at.
pub mod Results
mod Tests
use easy_game_server.Prelude.{
  ℕ, if◌then◌else◌, Bool, true, false, Option, none, some, List, Outcome, returns, crashes, ◌>>=◌,
  deref, strcpy_s, codes,
}
use easy_game_server.DatabaseJobContext.{
  DatabaseJob, load_player, create_player, delete_player, update_player, LoadPlayerData,
  CreatePlayerData, DeletePlayerData, UpdatePlayerData, DatabaseJobContext,
}
use easy_game_server.DbHelper.{
  Sqlite, DbHelper, ResultType, result_error, result_row, result_done, init, destroy,
  bind_param_int, bind_param_double, bind_param_text, fetch_row, get_result_param_text,
  get_result_param_double,
}

abbrev pub sql_insert_test : List ℕ
sql_insert_test = codes "INSERT INTO players VALUES(?, ?, ?, ?, ?, ?)"

abbrev pub sql_select_test : List ℕ
sql_select_test = codes "SELECT name, pos_x, pos_y, pos_z FROM players WHERE pid=?"

abbrev pub sql_update_test : List ℕ
sql_update_test = codes "UPDATE players SET pos_x=?, pos_y=?, pos_z=?, comment=? WHERE pid=?"

abbrev pub sql_delete_test : List ℕ
sql_delete_test = codes "DELETE FROM players WHERE pid=?"

abbrev is_row : ResultType → Bool
is_row result_row = true
is_row _ = false

abbrev pub is_error : ResultType → Bool
is_error result_error = true
is_error _ = false

module _ {Db Stmt : Type 0} (sqlite : Sqlite Db Stmt) where
  -- The columns of the row that has been fetched.
  unfoldable pub read_player :
      LoadPlayerData → DbHelper Stmt → Outcome (LoadPlayerData × DbHelper Stmt)
  unfolding get_result_param_text get_result_param_double
  read_player job h₀ = do
    (name, h₁) ← get_result_param_text sqlite h₀
    (x, h₂) ← get_result_param_double sqlite h₁
    (y, h₃) ← get_result_param_double sqlite h₂
    (z, h₄) ← get_result_param_double sqlite h₃
    text ← deref name
    player_name ← strcpy_s job.player_name text
    returns (record job { pos_x = x; pos_y = y; pos_z = z; player_name = player_name }, h₄)

  unfoldable pub on_execute_load : Db → LoadPlayerData → Outcome (Bool × LoadPlayerData × Db)
  unfolding init bind_param_int fetch_row read_player
  on_execute_load db job = do
    h₀ ← init sqlite db sql_select_test
    let h₁ = (bind_param_int sqlite h₀ job.player_id).1
    let (result, db', h₂) = fetch_row sqlite db h₁
    if is_row result
        then (read_player job h₂ >>= λ (loaded, h₃). returns (true, loaded, destroy sqlite db' h₃))
        else returns (false, job, destroy sqlite db' h₂)

  -- The end of the other three: they fetch, and fail only on an error.
  abbrev pub run_statement {ℓ} : {A : Type ℓ} → Db → A → DbHelper Stmt → Outcome (Bool × A × Db)
  run_statement db job h =
      let (result, db', h') = fetch_row sqlite db h in
      returns (if is_error result then false else true, job, destroy sqlite db' h')

  unfoldable pub on_execute_create : Db → CreatePlayerData → Outcome (Bool × CreatePlayerData × Db)
  unfolding init bind_param_int bind_param_double bind_param_text fetch_row
  on_execute_create db job = do
    h₀ ← init sqlite db sql_insert_test
    let h₁ = (bind_param_int sqlite h₀ job.player_id).1
    (_, h₂) ← bind_param_text sqlite h₁ job.player_name
    let h₃ = (bind_param_double sqlite h₂ job.pos_x).1
    let h₄ = (bind_param_double sqlite h₃ job.pos_y).1
    let h₅ = (bind_param_double sqlite h₄ job.pos_z).1
    (_, h₆) ← bind_param_text sqlite h₅ job.comment
    run_statement db job h₆

  unfoldable pub on_execute_delete : Db → DeletePlayerData → Outcome (Bool × DeletePlayerData × Db)
  unfolding init bind_param_int fetch_row
  on_execute_delete db job = do
    h₀ ← init sqlite db sql_delete_test
    let h₁ = (bind_param_int sqlite h₀ job.player_id).1
    run_statement db job h₁

  unfoldable pub on_execute_update : Db → UpdatePlayerData → Outcome (Bool × UpdatePlayerData × Db)
  unfolding init bind_param_int bind_param_double bind_param_text fetch_row
  on_execute_update db job = do
    h₀ ← init sqlite db sql_update_test
    let h₁ = (bind_param_double sqlite h₀ job.pos_x).1
    let h₂ = (bind_param_double sqlite h₁ job.pos_y).1
    let h₃ = (bind_param_double sqlite h₂ job.pos_z).1
    (_, h₄) ← bind_param_text sqlite h₃ job.comment
    let h₅ = (bind_param_int sqlite h₄ job.player_id).1
    run_statement db job h₅

  -- `jobContext->mSuccess = jobContext->OnExecute()`, for a job of any of the four classes.
  unfoldable pub execute_job : Db → DatabaseJob → Outcome (DatabaseJob × Db)
  unfolding on_execute_load on_execute_create on_execute_delete on_execute_update
  execute_job db (load_player job) = do
    (ok, done, db') ← on_execute_load db job
    returns (load_player (record done { base = record (done.base) { success = ok } }), db')
  execute_job db (create_player job) = do
    (ok, done, db') ← on_execute_create db job
    returns (create_player (record done { base = record (done.base) { success = ok } }), db')
  execute_job db (delete_player job) = do
    (ok, done, db') ← on_execute_delete db job
    returns (delete_player (record done { base = record (done.base) { success = ok } }), db')
  execute_job db (update_player job) = do
    (ok, done, db') ← on_execute_update db job
    returns (update_player (record done { base = record (done.base) { success = ok } }), db')
