-- ===== src/DbHelper/Laws.antt =====
-- What the code relies on of sqlite3, and what the calls that bind make of it.
use easy_game_server.Prelude.{
  ℕ, suc, ◌+◌, ◌≤◌, ◌<◌, ◌≡◌, refl, ◌∙◌, arith, ◌==◌, if◌then◌else◌, Bool, Option, none, some, List,
  [], ◌∷◌, ◌++◌, length, length-append, get_elem?, get_elem?-append_last, returns, find_nul, take,
  ℕ_discrete, false,
}
use easy_game_server.DbHelper.{
  Sqlite, DbHelper, init, bind_param_int, bind_param_double, bind_param_text,
}

pub data Value : Type 0 where
  int_value double_value : ℕ → Value
  text_value : List ℕ → Value

-- The bytes of an array before its first 0, or all.
abbrev pub text_of : List ℕ → List ℕ
text_of bytes = elim (find_nul bytes) [ none ↦ bytes | some n ↦ take n bytes ]

abbrev pub HasNul : List ℕ → Type 0
HasNul bytes = (n : ℕ) × (find_nul bytes ≡ some n)

text_of-some : (bytes : List ℕ) (n : ℕ) → find_nul bytes ≡ some n → text_of bytes ≡ take n bytes
text_of-some bytes n e = ground (arith, e)

-- The parameters that a statement has: the `?` (63) in its text.
abbrev pub questions : List ℕ → ℕ
questions [] = 0
questions (c ∷ text) = if c == 63 then suc (questions text) else questions text

-- What sqlite3's manual says of preparing and binding, where memory suffices: `sql` is the text of a
-- statement, `param` what is bound to a parameter, counted from 1, and `is_stepped` whether the statement
-- was stepped since it was prepared. Of a bind to a stepped statement (`SQLITE_MISUSE`) nothing is said.
pub record IsSqlite {Db Stmt : Type 0} (sqlite : Sqlite Db Stmt) (sql : Stmt → List ℕ)
    (param : Stmt → ℕ → Option Value) (is_stepped : Stmt → Bool) : Type 0 where
  pub prepares :
      (db : Db) (text : List ℕ) (stmt : Stmt)
      → sqlite.prepare db text ≡ some stmt
      → (sql stmt ≡ text) × (is_stepped stmt ≡ false)
  pub binds_int :
      (stmt : Stmt) (i v : ℕ)
      → 1 ≤ i
      → i ≤ questions (sql stmt)
      → is_stepped stmt ≡ false
      → (sql (sqlite.bind_int stmt i v).1 ≡ sql stmt)
        × (is_stepped (sqlite.bind_int stmt i v).1 ≡ false)
        × ((j : ℕ)
            → param (sqlite.bind_int stmt i v).1 j
              ≡ (if i == j then some (int_value v) else param stmt j))
  pub binds_double :
      (stmt : Stmt) (i v : ℕ)
      → 1 ≤ i
      → i ≤ questions (sql stmt)
      → is_stepped stmt ≡ false
      → (sql (sqlite.bind_double stmt i v).1 ≡ sql stmt)
        × (is_stepped (sqlite.bind_double stmt i v).1 ≡ false)
        × ((j : ℕ)
            → param (sqlite.bind_double stmt i v).1 j
              ≡ (if i == j then some (double_value v) else param stmt j))
  pub binds_text :
      (stmt : Stmt) (i : ℕ) (v : List ℕ)
      → 1 ≤ i
      → i ≤ questions (sql stmt)
      → is_stepped stmt ≡ false
      → (sql (sqlite.bind_text stmt i v).1 ≡ sql stmt)
        × (is_stepped (sqlite.bind_text stmt i v).1 ≡ false)
        × ((j : ℕ)
            → param (sqlite.bind_text stmt i v).1 j
              ≡ (if i == j then some (text_value v) else param stmt j))

module _ {Db Stmt : Type 0} {sqlite : Sqlite Db Stmt} {sql : Stmt → List ℕ}
    {param : Stmt → ℕ → Option Value} {is_stepped : Stmt → Bool}
    (laws : IsSqlite sqlite sql param is_stepped) where
  -- The statement of this text, with these values for its first parameters, in order.
  pub record IsBound (text : List ℕ) (values : List Value) (h : DbHelper Stmt) : Type 0 where
    pub same_text : sql h.result ≡ text
    pub fresh : is_stepped h.result ≡ false
    pub counted : h.bind_col_count ≡ length values
    pub in_order : (i : ℕ) → i < length values → param h.result (suc i) ≡ get_elem? values i

  pub init-IsBound :
      (db : Db) (text : List ℕ) (stmt : Stmt)
      → sqlite.prepare db text ≡ some stmt
      → (h : DbHelper Stmt) × IsBound text [] h × (init sqlite db text ≡ returns h)
  unfolding init
  init-IsBound db text stmt e = (
    record { result = stmt; result_col_count = 0; bind_col_count = 0; result_current_col = 0 },
    record {
      same_text = (laws.prepares db text stmt e).0;
      fresh = (laws.prepares db text stmt e).1;
      counted = refl;
      in_order = λ i l. absurd (omega arith);
    },
    rw e refl,
  )

  -- One more value, at the next parameter.
  append-IsBound :
      {text : List ℕ} {values : List Value} (v : Value) (h h' : DbHelper Stmt)
      → IsBound text values h
      → h'.bind_col_count ≡ h.bind_col_count + 1
      → sql h'.result ≡ sql h.result
      → is_stepped h'.result ≡ false
      → ((j : ℕ)
          → param h'.result j ≡ (if h.bind_col_count + 1 == j then some v else param h.result j))
      → IsBound text (values ++ (v ∷ [])) h'
  append-IsBound {text} {values} v h h' b c e n f = record {
    same_text = e ∙ b.same_text;
    fresh = n;
    counted = omega (arith, c, b.counted, length-append values (v ∷ []));
    in_order = λ i l. elim (ℕ_discrete i (length values)) [
      | yes last ↦ ground (arith, b.counted, f (suc i), get_elem?-append_last values v i, last)
      | no earlier ↦ ground (
        arith,
        b.counted,
        f (suc i),
        get_elem?-append_last values v i,
        earlier,
        length-append values (v ∷ []),
        b.in_order i (omega (arith, l, earlier, length-append values (v ∷ []))),
      )
    ];
  }

  pub bind_param_int-IsBound :
      {text : List ℕ} {values : List Value} (h : DbHelper Stmt) (v : ℕ)
      → length values < questions text
      → IsBound text values h
      → IsBound text (values ++ (int_value v ∷ [])) (bind_param_int sqlite h v).1
  unfolding bind_param_int
  bind_param_int-IsBound h v room b =
      let law =
        laws.binds_int h.result (h.bind_col_count + 1) v (omega arith)
          (rw (b.same_text) (omega (arith, b.counted))) b.fresh in
      append-IsBound (int_value v) h _ b refl law.0 law.1 law.2

  pub bind_param_double-IsBound :
      {text : List ℕ} {values : List Value} (h : DbHelper Stmt) (v : ℕ)
      → length values < questions text
      → IsBound text values h
      → IsBound text (values ++ (double_value v ∷ [])) (bind_param_double sqlite h v).1
  unfolding bind_param_double
  bind_param_double-IsBound h v room b =
      let law =
        laws.binds_double h.result (h.bind_col_count + 1) v (omega arith)
          (rw (b.same_text) (omega (arith, b.counted))) b.fresh in
      append-IsBound (double_value v) h _ b refl law.0 law.1 law.2

  -- The bytes before the 0.
  pub bind_param_text-IsBound :
      {text : List ℕ} {values : List Value} (h : DbHelper Stmt) (bytes : List ℕ)
      → length values < questions text
      → HasNul bytes
      → IsBound text values h
      → (ok : Bool) × (h' : DbHelper Stmt) × IsBound text
          (values ++ (text_value (text_of bytes) ∷ []))
          h'
        × (bind_param_text sqlite h bytes ≡ returns (ok, h'))
  unfolding bind_param_text
  bind_param_text-IsBound h bytes room (n, nul) b =
      let v = text_of bytes in
      let i = h.bind_col_count + 1 in
      let law =
        laws.binds_text h.result i v (omega arith) (rw (b.same_text) (omega (arith, b.counted)))
          b.fresh in
      (
        (sqlite.bind_text h.result i v).0,
        record h { result = (sqlite.bind_text h.result i v).1; bind_col_count = i },
        append-IsBound (text_value v) h _ b refl law.0 law.1 law.2,
        rw (text_of-some bytes n nul) (ground (arith, nul)),
      )
