-- ===== src/DatabaseJobContext/OnExecute/Results.antt =====
-- The jobs' statements: what is bound to them, and what becomes of the jobs.
use easy_game_server.Prelude.{
  ℕ, suc, ◌≡◌, refl, arith, Bool, true, false, not, Option, none, some, List, [], ◌∷◌, length, take,
  returns, crashes, find_nul, write_bytes, strcpy_s-some, strcpy_s-long, ◌≢◌,
}
use easy_game_server.DatabaseJobContext.{
  DatabaseJob, load_player, create_player, delete_player, update_player, LoadPlayerData,
}
use easy_game_server.DatabaseJobContext.OnExecute.{
  sql_insert_test, sql_select_test, sql_update_test, sql_delete_test, is_error, execute_job,
}
use easy_game_server.DbHelper.{Sqlite, DbHelper, Step, row, bind_param_int, fetch_row, destroy}
use easy_game_server.DbHelper.Laws.{
  Value, int_value, double_value, text_value, questions, text_of, HasNul, IsSqlite, IsBound,
  init-IsBound, bind_param_int-IsBound, bind_param_double-IsBound, bind_param_text-IsBound,
}

-- The statement of a job, and the values for its parameters.
abbrev pub sql_of : DatabaseJob → List ℕ
sql_of (load_player job) = sql_select_test
sql_of (create_player job) = sql_insert_test
sql_of (delete_player job) = sql_delete_test
sql_of (update_player job) = sql_update_test

abbrev pub values_of : DatabaseJob → List Value
values_of (load_player job) = int_value job.player_id ∷ []
values_of (create_player job) =
    int_value job.player_id
    ∷ text_value (text_of job.player_name)
    ∷ double_value job.pos_x
    ∷ double_value job.pos_y
    ∷ double_value job.pos_z
    ∷ text_value (text_of job.comment)
    ∷ []
values_of (delete_player job) = int_value job.player_id ∷ []
values_of (update_player job) =
    double_value job.pos_x
    ∷ double_value job.pos_y
    ∷ double_value job.pos_z
    ∷ text_value (text_of job.comment)
    ∷ int_value job.player_id
    ∷ []

-- Where the 0 of a column is, among the first bytes.
abbrev pub end_of_name : ℕ → Option (List ℕ) → Option ℕ
end_of_name size none = none
end_of_name size (some text) = find_nul (take size text)

-- A job that writes, its texts ended by a 0.
abbrev pub IsWrite : DatabaseJob → Type 0
IsWrite (load_player job) = ⊥
IsWrite (create_player job) = HasNul job.player_name × HasNul job.comment
IsWrite (delete_player job) = Unit
IsWrite (update_player job) = HasNul job.comment

abbrev pub with_success : Bool → DatabaseJob → DatabaseJob
with_success ok (load_player job) =
    load_player (record job { base = record (job.base) { success = ok } })
with_success ok (create_player job) =
    create_player (record job { base = record (job.base) { success = ok } })
with_success ok (delete_player job) =
    delete_player (record job { base = record (job.base) { success = ok } })
with_success ok (update_player job) =
    update_player (record job { base = record (job.base) { success = ok } })

pub questions-sql_of : (job : DatabaseJob) → questions (sql_of job) ≡ length (values_of job)
questions-sql_of (load_player job) = refl
questions-sql_of (create_player job) = refl
questions-sql_of (delete_player job) = refl
questions-sql_of (update_player job) = refl

module _ {Db Stmt : Type 0} {sqlite : Sqlite Db Stmt} {sql : Stmt → List ℕ}
    {param : Stmt → ℕ → Option Value} {is_stepped : Stmt → Bool}
    (laws : IsSqlite sqlite sql param is_stepped) where
  -- A job that creates, deletes or updates a player, its texts ended by a 0, once sqlite3, keeping
  -- what its manual says of statements that are bound before they are stepped, has prepared its
  -- statement: every parameter of the statement has been bound, to the job's fields in the order of
  -- the statement's text, when it is stepped. The job succeeds unless that gives an error, and is
  -- otherwise left as it was.
  pub execute_job_writes :
      (db : Db) (job : DatabaseJob) (stmt : Stmt)
      → IsWrite job
      → sqlite.prepare db (sql_of job) ≡ some stmt
      → (h : DbHelper Stmt) × IsBound laws (sql_of job) (values_of job) h
        × (questions (sql_of job) ≡ length (values_of job))
        × (let (result, db', h') = fetch_row sqlite db h in
            execute_job sqlite db job
            ≡ returns (with_success (not (is_error result)) job, destroy sqlite db' h'))
  unfolding execute_job
  execute_job_writes db (load_player job) stmt w e = absurd w
  execute_job_writes db (delete_player job) stmt w e =
      let (h, b, f) = init-IsBound laws db sql_delete_test stmt e in
      (
        (bind_param_int sqlite h job.player_id).1,
        bind_param_int-IsBound laws h job.player_id (omega arith) b,
        refl,
        ground (arith, f),
      )
  execute_job_writes db (create_player job) stmt (named, commented) e =
      let (h₀, b₀, f₀) = init-IsBound laws db sql_insert_test stmt e in
      let b₁ = bind_param_int-IsBound laws h₀ job.player_id (omega arith) b₀ in
      let (ok, h₂, b₂, f₂) =
        bind_param_text-IsBound laws _ job.player_name (omega arith) named b₁ in
      let b₃ = bind_param_double-IsBound laws h₂ job.pos_x (omega arith) b₂ in
      let b₄ = bind_param_double-IsBound laws _ job.pos_y (omega arith) b₃ in
      let b₅ = bind_param_double-IsBound laws _ job.pos_z (omega arith) b₄ in
      let (ok', h₆, b₆, f₆) =
        bind_param_text-IsBound laws _ job.comment (omega arith) commented b₅ in
      (h₆, b₆, refl, ground (arith, f₀, f₂, f₆))
  execute_job_writes db (update_player job) stmt commented e =
      let (h₀, b₀, f₀) = init-IsBound laws db sql_update_test stmt e in
      let b₁ = bind_param_double-IsBound laws h₀ job.pos_x (omega arith) b₀ in
      let b₂ = bind_param_double-IsBound laws _ job.pos_y (omega arith) b₁ in
      let b₃ = bind_param_double-IsBound laws _ job.pos_z (omega arith) b₂ in
      let (ok, h₄, b₄, f₄) =
        bind_param_text-IsBound laws _ job.comment (omega arith) commented b₃ in
      let b₅ = bind_param_int-IsBound laws h₄ job.player_id (omega arith) b₄ in
      (_, b₅, refl, ground (arith, f₀, f₄))

module _ {Db Stmt : Type 0} (sqlite : Sqlite Db Stmt) (db db' : Db) (job : LoadPlayerData)
    (stmt stmt' : Stmt) where
  -- A job that loads, when its statement, stepped with the player's id bound to its parameter, gives a
  -- row of the four columns selected: it succeeds with the position and the name of the row, in the
  -- columns' order, if the name and its 0 fit into the job's array.
  pub execute_job_loads :
      (text : List ℕ) (n : ℕ)
      → sqlite.prepare db sql_select_test ≡ some stmt
      → sqlite.step db (sqlite.bind_int stmt 1 job.player_id).1 ≡ (row, db', stmt')
      → sqlite.column_count stmt' ≡ 4
      → sqlite.column_text stmt' 0 ≡ some text
      → find_nul (take (length job.player_name) text) ≡ some n
      → execute_job sqlite db (load_player job)
        ≡ returns (
          load_player (record job {
            base = record (job.base) { success = true };
            pos_x = sqlite.column_double stmt' 1;
            pos_y = sqlite.column_double stmt' 2;
            pos_z = sqlite.column_double stmt' 3;
            player_name = write_bytes job.player_name 0 (take (suc n) text);
          }),
          sqlite.finalize db' stmt',
        )
  unfolding execute_job
  execute_job_loads text n e stepped four named fits =
      ground (arith, e, stepped, four, named, strcpy_s-some job.player_name text n fits)

  -- If the name and its 0 do not fit, or the name is null, the job stops the server.
  pub execute_job_crashes :
      (name : Option (List ℕ))
      → sqlite.prepare db sql_select_test ≡ some stmt
      → sqlite.step db (sqlite.bind_int stmt 1 job.player_id).1 ≡ (row, db', stmt')
      → sqlite.column_count stmt' ≡ 4
      → sqlite.column_text stmt' 0 ≡ name
      → end_of_name (length job.player_name) name ≡ none
      → execute_job sqlite db (load_player job) ≡ crashes
  unfolding execute_job
  execute_job_crashes none e stepped four named long = ground (arith, e, stepped, four, named)
  execute_job_crashes (some text) e stepped four named long =
      ground (arith, e, stepped, four, named, strcpy_s-long job.player_name text long)

  -- Without a row the job fails and is otherwise left as it was.
  execute_job_missing :
      (s : Step)
      → sqlite.prepare db sql_select_test ≡ some stmt
      → sqlite.step db (sqlite.bind_int stmt 1 job.player_id).1 ≡ (s, db', stmt')
      → s ≢ row
      → execute_job sqlite db (load_player job)
        ≡ returns (with_success false (load_player job), sqlite.finalize db' stmt')
  unfolding execute_job
  execute_job_missing s e stepped no_row = ground (arith, e, stepped, no_row)
