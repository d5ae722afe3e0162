-- ===== src/Sqlite/Faulty/Steady.antt =====
-- The failing calls of the library in Sqlite/Faulty.
use sshnack.Base.{◌≡◌, Bool, false, Option, arith, ℕ}
use sshnack.Tables.{Tables}
use sshnack.Tables.Statements.{Effect, Sql}
use sshnack.Sqlite.{Command, View, error, broken}
use sshnack.Sqlite.Faulty.{
  exec_view, prepare_view, step_view, fetch_view, Db, faulty_exec, faulty_prepare, faulty_step,
  faulty_fetch,
}

exec_view_fails :
    (c : Command) (s : Option Tables) (b : Bool) (v : View)
    → (exec_view c s b v).0 ≡ false
    → (exec_view c s b v).1 ≡ v
unfolding exec_view
exec_view_fails c s b v h = ground arith

step_view_fails :
    (b : Bool) (ef : Effect) (v : View) → (step_view b ef v).0 ≡ error → (step_view b ef v).1 ≡ v
unfolding step_view
step_view_fails b ef v h = ground arith

fetch_view_fails :
    (b : Bool) (ef : Effect) (through : Bool) (v : View)
    → (fetch_view b ef through v).0 ≡ broken
    → (fetch_view b ef through v).1 ≡ v
unfolding fetch_view
fetch_view_fails b ef through v h = ground arith

pub faulty_exec_fails :
    (c : Command) (d : Db) → (faulty_exec c d).0 ≡ false → (faulty_exec c d).1.view ≡ d.view
unfolding faulty_exec
faulty_exec_fails c d h = exec_view_fails c _ _ _ h

pub faulty_prepare_fails :
    (sql : Sql) (d : Db) → (faulty_prepare sql d).0 ≡ false → (faulty_prepare sql d).1.view ≡ d.view
unfolding faulty_prepare prepare_view
faulty_prepare_fails sql d h = ground arith

pub faulty_step_fails :
    (sql : Sql) (d : Db) → (faulty_step sql d).0 ≡ error → (faulty_step sql d).1.view ≡ d.view
unfolding faulty_step
faulty_step_fails sql d h = step_view_fails _ _ _ h

pub faulty_fetch_fails :
    (sql : Sql) (goes_on : ℕ → Bool) (d : Db)
    → (faulty_fetch sql goes_on d).0 ≡ broken
    → (faulty_fetch sql goes_on d).1.view ≡ d.view
unfolding faulty_fetch
faulty_fetch_fails sql goes_on d h = fetch_view_fails _ _ _ _ h
