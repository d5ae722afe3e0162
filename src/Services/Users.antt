-- ===== src/Services/Users.antt =====
-- server/src/services/users_service.c.
pub mod Laws
use sshnack.Base.{Bool, if◌then◌else◌, not}
use sshnack.Base.Int.{ℤ}
use sshnack.Base.Text.{Text}
use sshnack.Tables.Statements.{upsert_user}
use sshnack.Sqlite.{
  begin, commit, Step, row, done, error, Prog, ret, ◌>>=◌, ◌>>◌, sqlite_exec, sqlite_prepare,
  sqlite_step, sqlite_finalize, column_int,
}
use sshnack.Services.Common.{failure, rollback_and}

unfoldable pub users_lookup : Text → Prog ℤ
unfolding column_int
users_lookup fingerprint = do
  ok ← sqlite_exec begin
  if not ok then ret failure else do
    let sql = upsert_user fingerprint
    ok ← sqlite_prepare sql
    if not ok then rollback_and failure else do
      rc ← sqlite_step sql
      elim rc [
        | done ↦ sqlite_finalize >> rollback_and failure
        | error ↦ sqlite_finalize >> rollback_and failure
        | row columns ↦ do
          sqlite_finalize
          ok ← sqlite_exec commit
          if not ok then rollback_and failure else ret (column_int columns 0)
      ]
