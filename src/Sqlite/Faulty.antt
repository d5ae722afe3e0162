-- ===== src/Sqlite/Faulty.antt =====
-- A library that keeps the laws: the view itself is the connection, and a list says which of the
-- coming calls fail. A ROLLBACK fails only where no transaction is open. With an empty list every
-- call succeeds that can.
pub mod Steady
use sshnack.Base.{◌≡◌, refl, inl, Bool, true, false, Option, none, some, List, [], ◌∷◌, ℕ}
use sshnack.Tables.{Tables}
use sshnack.Tables.Statements.{Sql, Effect, effect}
use sshnack.Sqlite.{
  Command, begin, commit, rollback, Step, row, done, error, View, rolled_back, begun, committed,
  opened, finalized, with_tables, Execs, Prepares, Steps, Sqlite, IsSqlite, Ending, Fetches, broken,
  goes_through, all_rows, left,
}

pub record Db : Type 0 where
  pub view : View
  pub faults : List Bool

-- The connection on which nothing fails.
abbrev pub calm : View → Db
calm v = record { view = v; faults = [] }

abbrev fails : List Bool → Bool
fails [] = false
fails (b ∷ _) = b

abbrev rest : List Bool → List Bool
rest [] = []
rest (_ ∷ bs) = bs

unfoldable exec_view : Command → Option Tables → Bool → View → Bool × View
exec_view begin none false v = (true, begun v)
exec_view commit (some _) false v = (true, committed v)
exec_view rollback (some _) _ v = (true, rolled_back v)
exec_view _ _ _ v = (false, v)

unfoldable prepare_view : Bool → View → Bool × View
prepare_view true v = (false, v)
prepare_view false v = (true, opened v)

unfoldable step_view : Bool → Effect → View → Step × View
step_view true e v = (error, v)
step_view false none v = (error, v)
step_view false (some ([], t)) v = (done, with_tables v t)
step_view false (some (r ∷ _, t)) v = (row r, with_tables v t)

unfoldable fetch_view : Bool → Effect → Bool → View → Ending × View
fetch_view true e through v = (broken, v)
fetch_view false none through v = (broken, v)
fetch_view false (some (rs, t)) true v = (all_rows rs, with_tables v t)
fetch_view false (some (rs, t)) false v = (left, with_tables v t)

abbrev got_through : Effect → (ℕ → Bool) → Bool
got_through none goes_on = true
got_through (some (rs, t)) goes_on = goes_through goes_on 0 rs

abbrev put : {A : Type 0} → Db → A × View → A × Db
put d (a, v) = (a, record { view = v; faults = rest d.faults })

unfoldable pub faulty_exec : Command → Db → Bool × Db
unfolding exec_view
faulty_exec c d = put d (exec_view c d.view.saved (fails d.faults) d.view)

unfoldable pub faulty_prepare : Sql → Db → Bool × Db
unfolding prepare_view
faulty_prepare sql d = put d (prepare_view (fails d.faults) d.view)

unfoldable pub faulty_step : Sql → Db → Step × Db
unfolding step_view
faulty_step sql d =
    put d (step_view (fails d.faults) (effect d.view.foreign_keys sql d.view.tables) d.view)

unfoldable pub faulty_fetch : Sql → (ℕ → Bool) → Db → Ending × Db
unfolding fetch_view
faulty_fetch sql goes_on d =
    let e = effect d.view.foreign_keys sql d.view.tables in
    put d (fetch_view (fails d.faults) e (got_through e goes_on) d.view)

abbrev pub faulty : Sqlite
faulty = record {
  Db = Db;
  exec_db = faulty_exec;
  prepare_db = faulty_prepare;
  step_db = faulty_step;
  fetch_db = faulty_fetch;
  finalize_db = λ d. record d { view = finalized d.view };
}

exec_view-Execs :
    (c : Command) (s : Option Tables) (b : Bool) (v : View)
    → Execs c s v (exec_view c s b v).0 (exec_view c s b v).1
unfolding exec_view
exec_view-Execs begin none true v = refl
exec_view-Execs begin none false v = refl
exec_view-Execs begin (some _) true v = refl
exec_view-Execs begin (some _) false v = refl
exec_view-Execs commit none true v = inl refl
exec_view-Execs commit none false v = inl refl
exec_view-Execs commit (some _) true v = inl refl
exec_view-Execs commit (some _) false v = refl
exec_view-Execs rollback none true v = refl
exec_view-Execs rollback none false v = refl
exec_view-Execs rollback (some _) true v = refl
exec_view-Execs rollback (some _) false v = refl

prepare_view-Prepares : (b : Bool) (v : View) → Prepares v (prepare_view b v).0 (prepare_view b v).1
unfolding prepare_view
prepare_view-Prepares true v = inl refl
prepare_view-Prepares false v = refl

step_view-Steps :
    (b : Bool) (e : Effect) (v : View) → Steps e v (step_view b e v).0 (step_view b e v).1
unfolding step_view
step_view-Steps true none v = inl refl
step_view-Steps true (some ([], t)) v = inl refl
step_view-Steps true (some (r ∷ _, t)) v = inl refl
step_view-Steps false none v = inl refl
step_view-Steps false (some ([], t)) v = refl
step_view-Steps false (some (r ∷ _, t)) v = (refl, refl)

fetch_view-Fetches :
    (b : Bool) (e : Effect) (goes_on : ℕ → Bool) (through : Bool) (v : View)
    → got_through e goes_on ≡ through
    → Fetches e goes_on v (fetch_view b e through v).0 (fetch_view b e through v).1
unfolding fetch_view
fetch_view-Fetches true none goes_on through v h = inl refl
fetch_view-Fetches true (some (rs, t)) goes_on through v h = inl refl
fetch_view-Fetches false none goes_on through v h = inl refl
fetch_view-Fetches false (some (rs, t)) goes_on true v h = (h, refl, refl)
fetch_view-Fetches false (some (rs, t)) goes_on false v h = (h, refl)

pub faulty_exec-Execs :
    (c : Command) (d : Db)
    → Execs c d.view.saved d.view (faulty_exec c d).0 (faulty_exec c d).1.view
unfolding faulty_exec
faulty_exec-Execs c d = exec_view-Execs c d.view.saved (fails d.faults) d.view

pub faulty_prepare-Prepares :
    (sql : Sql) (d : Db) → Prepares d.view (faulty_prepare sql d).0 (faulty_prepare sql d).1.view
unfolding faulty_prepare
faulty_prepare-Prepares sql d = prepare_view-Prepares (fails d.faults) d.view

pub faulty_step-Steps :
    (sql : Sql) (d : Db)
    → Steps
        (effect d.view.foreign_keys sql d.view.tables)
        d.view
        (faulty_step sql d).0
        (faulty_step sql d).1.view
unfolding faulty_step
faulty_step-Steps sql d =
    step_view-Steps (fails d.faults) (effect d.view.foreign_keys sql d.view.tables) d.view

pub faulty_fetch-Fetches :
    (sql : Sql) (goes_on : ℕ → Bool) (d : Db)
    → Fetches
        (effect d.view.foreign_keys sql d.view.tables)
        goes_on
        d.view
        (faulty_fetch sql goes_on d).0
        (faulty_fetch sql goes_on d).1.view
unfolding faulty_fetch
faulty_fetch-Fetches sql goes_on d =
    let e = effect d.view.foreign_keys sql d.view.tables in
    fetch_view-Fetches (fails d.faults) e goes_on (got_through e goes_on) d.view refl

-- The laws of `IsSqlite` can be met.
abbrev pub faulty-IsSqlite : IsSqlite faulty
faulty-IsSqlite = record {
  view = λ d. d.view;
  exec_law = faulty_exec-Execs;
  prepare_law = faulty_prepare-Prepares;
  step_law = faulty_step-Steps;
  fetch_law = faulty_fetch-Fetches;
  finalize_law = λ d. refl;
}
