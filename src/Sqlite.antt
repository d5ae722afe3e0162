-- ===== src/Sqlite.antt =====
-- The calls of the SQLite library that the server makes, and programs made of them. The library is
-- a parameter: a type of connections with five operations, and the laws of `IsSqlite`, which state
-- its documented behaviour. Every call may fail; a failure leaves the tables alone, or rolls the
-- open transaction back, as the library's manual allows.
pub mod Logic
pub mod Faulty
use sshnack.Base.{
  ℕ, ◌+◌, ◌-◌, ◌≡◌, ◌≢◌, ◌⊎◌, Bool, true, false, Option, none, some, List, [], ◌∷◌, if◌then◌else◌,
  ◌==◌, ◌&&◌,
}
use sshnack.Base.Int.{ℤ, pos, to_int32}
use sshnack.Base.Text.{Text}
use sshnack.Tables.{Tables}
use sshnack.Tables.Statements.{Column, int, text, Row, Sql, Effect, effect}

-- The texts that `sqlite3_exec` gets.
pub data Command : Type 0 where
  begin commit rollback : Command

-- What the first `sqlite3_step` of a statement returns: SQLITE_ROW with its columns, SQLITE_DONE or
-- an error.
pub data Step : Type 0 where
  row : Row → Step
  done error : Step

-- How the loop `while ((rc = sqlite3_step(stmt)) == SQLITE_ROW)` ends: with SQLITE_DONE, after the
-- rows that its body got; with an error; or since the body leaves it.
pub data Ending : Type 0 where
  all_rows : List Row → Ending
  broken left : Ending

-- `sqlite3_column_int`: the low 32 bits of a number, and 0 where there is none.
unfoldable pub column_int : Row → ℕ → ℤ
column_int [] k = pos 0
column_int (int z ∷ cs) ℕ.zero = to_int32 z
column_int (text s ∷ cs) ℕ.zero = pos 0
column_int (c ∷ cs) (ℕ.suc k) = column_int cs k

unfoldable pub column_text : Row → ℕ → Text
column_text [] k = []
column_text (int z ∷ cs) ℕ.zero = []
column_text (text s ∷ cs) ℕ.zero = s
column_text (c ∷ cs) (ℕ.suc k) = column_text cs k

-- A program that makes calls and goes on with what they return. A statement is named by its text,
-- since no two are open at once in this server.
pub data Prog (A : Type 0) : Type 0 where
  ret : A → Prog A
  exec : Command → (Bool → Prog A) → Prog A
  prepare : Sql → (Bool → Prog A) → Prog A
  step : Sql → (Step → Prog A) → Prog A
  fetch : Sql → (ℕ → Bool) → (Ending → Prog A) → Prog A
  finalize : Prog A → Prog A

infixl 5 ◌>>=◌ ◌>>◌
abbrev pub ◌>>=◌ : {A B : Type 0} → Prog A → (A → Prog B) → Prog B
ret a >>= f = f a
exec c k >>= f = exec c (λ b. k b >>= f)
prepare sql k >>= f = prepare sql (λ b. k b >>= f)
step sql k >>= f = step sql (λ s. k s >>= f)
fetch sql goes_on k >>= f = fetch sql goes_on (λ s. k s >>= f)
finalize m >>= f = finalize (m >>= f)

abbrev pub ◌>>◌ : {A B : Type 0} → Prog A → Prog B → Prog B
m >> k = m >>= λ _. k

-- The calls one at a time; `true` is SQLITE_OK.
abbrev pub sqlite_exec : Command → Prog Bool
sqlite_exec c = exec c ret

abbrev pub sqlite_prepare : Sql → Prog Bool
sqlite_prepare sql = prepare sql ret

abbrev pub sqlite_step : Sql → Prog Step
sqlite_step sql = step sql ret

-- The loop over the rows of a statement. Its body goes on at the row with index `n` if `goes_on n`,
-- and leaves the loop there otherwise.
abbrev pub sqlite_fetch : Sql → (ℕ → Bool) → Prog Ending
sqlite_fetch sql goes_on = fetch sql goes_on ret

abbrev pub sqlite_finalize : Prog (Unit {0})
sqlite_finalize = finalize (ret tt)

abbrev pub is_done : Step → Bool
is_done done = true
is_done _ = false

-- What a connection shows: the tables as its statements see them, the tables that ROLLBACK would
-- bring back while a transaction is open, the number of statements not yet finalized, and whether
-- foreign keys are enforced.
pub record View : Type 0 where
  pub tables : Tables
  pub saved : Option Tables
  pub pending : ℕ
  pub foreign_keys : Bool

abbrev pub rolled_back : View → View
rolled_back v = elim v.saved [ none ↦ v | some t ↦ record v { tables = t; saved = none } ]

-- A call that failed.
abbrev pub Failed : View → View → Type 0
Failed v v' = (v' ≡ v) ⊎ (v' ≡ rolled_back v)

abbrev pub begun : View → View
begun v = record v { saved = some v.tables }

abbrev pub committed : View → View
committed v = record v { saved = none }

abbrev pub opened : View → View
opened v = record v { pending = v.pending + 1 }

abbrev pub finalized : View → View
finalized v = record v { pending = v.pending - 1 }

abbrev pub with_tables : View → Tables → View
with_tables v t = record v { tables = t }

-- BEGIN opens a transaction, or fails; within one it fails. COMMIT keeps the tables, or fails. A
-- ROLLBACK in a transaction succeeds if no statement is pending.
abbrev pub Execs : Command → Option Tables → View → Bool → View → Type 0
Execs begin none v true v' = v' ≡ begun v
Execs begin (some _) v true v' = ⊥
Execs begin saved v false v' = v' ≡ v
Execs commit (some _) v true v' = v' ≡ committed v
Execs commit none v true v' = ⊥
Execs commit saved v false v' = Failed v v'
Execs rollback (some _) v true v' = v' ≡ rolled_back v
Execs rollback none v true v' = ⊥
Execs rollback (some _) v false v' = (v' ≡ v) × (v.pending ≢ 0)
Execs rollback none v false v' = v' ≡ v

abbrev pub Prepares : View → Bool → View → Type 0
Prepares v true v' = v' ≡ opened v
Prepares v false v' = Failed v v'

-- A statement fails, or does what its text means.
abbrev pub Steps : Effect → View → Step → View → Type 0
Steps (some ([], t)) v done v' = v' ≡ with_tables v t
Steps (some (r ∷ _, t)) v (row r') v' = (r' ≡ r) × (v' ≡ with_tables v t)
Steps e v error v' = Failed v v'
Steps _ v _ v' = ⊥

-- Whether the body goes on at each of some rows, the first of which has the index `n`.
unfoldable pub goes_through : (ℕ → Bool) → ℕ → List Row → Bool
goes_through goes_on n [] = true
goes_through goes_on n (r ∷ rs) = goes_on n && goes_through goes_on (n + 1) rs

-- A loop over the rows breaks with an error, or goes through them all, or the body leaves it.
abbrev pub Fetches : Effect → (ℕ → Bool) → View → Ending → View → Type 0
Fetches (some (rs, t)) goes_on v (all_rows got) v' =
    (goes_through goes_on 0 rs ≡ true) × (got ≡ rs) × (v' ≡ with_tables v t)
Fetches (some (rs, t)) goes_on v left v' =
    (goes_through goes_on 0 rs ≡ false) × (v' ≡ with_tables v t)
Fetches e goes_on v broken v' = Failed v v'
Fetches none _ v _ v' = ⊥

-- The library.
pub record Sqlite : Type 1 where
  pub Db : Type 0
  pub exec_db : Command → Db → Bool × Db
  pub prepare_db : Sql → Db → Bool × Db
  pub step_db : Sql → Db → Step × Db
  pub fetch_db : Sql → (ℕ → Bool) → Db → Ending × Db
  pub finalize_db : Db → Db

-- Its documented behaviour.
pub record IsSqlite (e : Sqlite) : Type 0 where
  pub view : e.Db → View
  pub exec_law :
      (c : Command) (d : e.Db)
      → Execs c (view d).saved (view d) (e.exec_db c d).0 (view (e.exec_db c d).1)
  pub prepare_law :
      (sql : Sql) (d : e.Db)
      → Prepares (view d) (e.prepare_db sql d).0 (view (e.prepare_db sql d).1)
  pub step_law :
      (sql : Sql) (d : e.Db)
      → Steps
          (effect (view d).foreign_keys sql (view d).tables)
          (view d)
          (e.step_db sql d).0
          (view (e.step_db sql d).1)
  pub fetch_law :
      (sql : Sql) (goes_on : ℕ → Bool) (d : e.Db)
      → Fetches
          (effect (view d).foreign_keys sql (view d).tables)
          goes_on
          (view d)
          (e.fetch_db sql goes_on d).0
          (view (e.fetch_db sql goes_on d).1)
  pub finalize_law : (d : e.Db) → view (e.finalize_db d) ≡ finalized (view d)

-- A program run against the library.
unfoldable pub run : {A : Type 0} (e : Sqlite) → Prog A → e.Db → A × e.Db
run e (ret a) d = (a, d)
run e (exec c k) d = let (b, d') = e.exec_db c d in run e (k b) d'
run e (prepare sql k) d = let (b, d') = e.prepare_db sql d in run e (k b) d'
run e (step sql k) d = let (s, d') = e.step_db sql d in run e (k s) d'
run e (fetch sql goes_on k) d = let (s, d') = e.fetch_db sql goes_on d in run e (k s) d'
run e (finalize m) d = run e m (e.finalize_db d)
