-- ===== src/Interleaved.antt =====
-- The workers of the pool on the one connection of the server: their calls of SQLite in any order.
-- Each worker runs one service after another. The loop over the rows of `products_list` is one call
-- here; it writes nothing.
pub mod Safe
pub mod Money
pub mod Stock
pub mod Purchase
pub mod Outside
pub mod Inside
pub mod Turns
pub mod Invariant
mod Tests
pub mod Services
use sshnack.Base.{ℕ, ◌==◌, ◌≡◌, Bool, false, if◌then◌else◌}
use sshnack.Tables.{Tables}
use sshnack.Tables.Range.{InRange}
use sshnack.Sqlite.{
  Command, Step, error, Ending, broken, Prog, ret, exec, prepare, step, fetch, finalize, Sqlite,
  IsSqlite,
}
use sshnack.Tables.Statements.{Sql}
use sshnack.Ledger.{ServiceCall, service}

-- The next call of a program, and what is left of it.
unfoldable pub advance : {A : Type 0} (e : Sqlite) → Prog A → e.Db → Prog A × e.Db
advance e (ret a) d = (ret a, d)
advance e (exec c k) d = let (b, d') = e.exec_db c d in (k b, d')
advance e (prepare sql k) d = let (b, d') = e.prepare_db sql d in (k b, d')
advance e (step sql k) d = let (s, d') = e.step_db sql d in (k s, d')
advance e (fetch sql goes_on k) d = let (s, d') = e.fetch_db sql goes_on d in (k s, d')
advance e (finalize m) d = (m, e.finalize_db d)

-- What each worker has left to do.
abbrev pub Workers : Type 0
Workers = ℕ → Prog (Unit {0})

abbrev pub at_rest : Workers
at_rest i = ret tt

unfoldable pub set_worker : Workers → ℕ → Prog (Unit {0}) → Workers
set_worker ws i m j = if j == i then m else ws j

-- What a call that fails may not do: the view stays as it is, so that no transaction is rolled back
-- by a failure.
pub record IsSteady (e : Sqlite) (laws : IsSqlite e) : Type 0 where
  pub exec_steady :
      (c : Command) (d : e.Db)
      → (e.exec_db c d).0 ≡ false
      → laws.view (e.exec_db c d).1 ≡ laws.view d
  pub prepare_steady :
      (sql : Sql) (d : e.Db)
      → (e.prepare_db sql d).0 ≡ false
      → laws.view (e.prepare_db sql d).1 ≡ laws.view d
  pub step_steady :
      (sql : Sql) (d : e.Db)
      → (e.step_db sql d).0 ≡ error
      → laws.view (e.step_db sql d).1 ≡ laws.view d
  pub fetch_steady :
      (sql : Sql) (goes_on : ℕ → Bool) (d : e.Db)
      → (e.fetch_db sql goes_on d).0 ≡ broken
      → laws.view (e.fetch_db sql goes_on d).1 ≡ laws.view d

-- The states that the workers reach from rest: one of them makes its next call, while the numbers of
-- the tables fit an `int`, or takes up a service when it is at rest.
pub data Reach (e : Sqlite) (laws : IsSqlite e) (start : e.Db) : Workers → e.Db → Type 1 where
  none_yet : Reach e laws start at_rest start
  calls :
      {ws : Workers} {d : e.Db}
      → Reach e laws start ws d
      → InRange (laws.view d).tables
      → (i : ℕ) → Reach e laws start (set_worker ws i (advance e (ws i) d).0) (advance e (ws i) d).1
  takes :
      {ws : Workers} {d : e.Db}
      → Reach e laws start ws d
      → (i : ℕ) → ws i ≡ ret tt
      → (c : ServiceCall) → Reach e laws start (set_worker ws i (service c)) d
