-- ===== src/DatabaseJobContext/OnExecute/Tests.antt =====
-- A small database engine that keeps what is bound before a step, and gives one row to any statement.
use easy_game_server.Prelude.{
  ℕ, ◌≡◌, refl, arith, if◌then◌else◌, ◌==◌, true, false, Bool, not, Option, none, some, List, [],
  ◌∷◌, returns, crashes, replicate,
}
use easy_game_server.DatabaseJobContext.{
  load_player, update_player, load_player_data, update_player_data, UpdatePlayerData,
  LoadPlayerData,
}
use easy_game_server.DatabaseJobContext.OnExecute.{execute_job, is_error}
use easy_game_server.DatabaseJobContext.OnExecute.Results.{
  execute_job_writes, execute_job_crashes, sql_of, with_success,
}
use easy_game_server.DbHelper.{Sqlite, DbHelper, row, destroy, fetch_row}
use easy_game_server.DbHelper.Laws.{
  Value, int_value, double_value, text_value, IsSqlite, IsBound, questions,
}

record Statement : Type 0 where
  pub text : List ℕ
  pub bound : ℕ → Option Value
  pub is_stepped : Bool

-- A statement that was stepped refuses.
abbrev bind : Statement → ℕ → Value → Bool × Statement
bind s i v =
    if s.is_stepped
    then (false, s)
    else (true, record s { bound = λ j. if i == j then some v else s.bound j })

abbrev engine : List ℕ → Sqlite (Unit {0}) Statement
engine name = record {
  open_database = λ _. (true, some tt);
  close = λ db. db;
  exec = λ db _. (true, db);
  prepare = λ _ text. some (record { text = text; bound = λ _. none; is_stepped = false });
  bind_int = λ s i v. bind s i (int_value v);
  bind_double = λ s i v. bind s i (double_value v);
  bind_text = λ s i v. bind s i (text_value v);
  step = λ db s. (row, db, record s { is_stepped = true });
  finalize = λ db _. db;
  column_count = λ _. 4;
  column_int = λ _ i. i;
  column_double = λ _ i. i;
  column_text = λ _ _. some name;
}

engine-IsSqlite : IsSqlite (engine []) (λ s. s.text) (λ s. s.bound) (λ s. s.is_stepped)
engine-IsSqlite = record {
  prepares = λ db text stmt e. ground (arith, e);
  binds_int = λ stmt i v low high fresh. rw fresh (refl, refl, λ j. refl);
  binds_double = λ stmt i v low high fresh. rw fresh (refl, refl, λ j. refl);
  binds_text = λ stmt i v low high fresh. rw fresh (refl, refl, λ j. refl);
}

abbrev update : UpdatePlayerData
update = record (update_player_data 3 7) { pos_x = 1; pos_y = 2; comment = 65 ∷ replicate 39 0 }

execute_job_writes_example :
    (h : DbHelper Statement) × IsBound engine-IsSqlite
      (sql_of (update_player update))
      (double_value 1 ∷ double_value 2 ∷ double_value 0 ∷ text_value (65 ∷ []) ∷ int_value 7 ∷ [])
      h
    × (questions (sql_of (update_player update)) ≡ 5)
    × (let (result, db', h') = fetch_row (engine []) tt h in
        execute_job (engine []) tt (update_player update)
        ≡ returns (
          with_success (not (is_error result)) (update_player update),
          destroy (engine []) db' h',
        ))
execute_job_writes_example =
    execute_job_writes engine-IsSqlite tt (update_player update) _ (1, refl) refl

abbrev load : LoadPlayerData
load = load_player_data 3 7

abbrev long_name : List ℕ
long_name = replicate 31 65

execute_job_crashes_example : execute_job (engine long_name) tt (load_player load) ≡ crashes
execute_job_crashes_example =
    execute_job_crashes (engine long_name) tt tt load _ _ (some long_name) refl refl refl refl refl
