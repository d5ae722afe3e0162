-- ===== src/Services/Balance.antt =====
-- server/src/services/balance_service.c. A function that writes through `out_…` returns its code
-- together with the value that is written, which is `none` where nothing is written.
pub mod Laws
pub mod Truncation
use sshnack.Base.{Bool, Option, none, some, if◌then◌else◌, not}
use sshnack.Base.Int.{ℤ, pos, negsuc, leb_ℤ, eqb_ℤ, neg_ℤ, to_int32}
use sshnack.Tables.{deposit, withdrawal}
use sshnack.Tables.Statements.{select_balance, upsert_balance, reset_balance}
use sshnack.Sqlite.{
  begin, commit, Step, row, done, error, Prog, ret, ◌>>=◌, ◌>>◌, sqlite_exec, sqlite_prepare,
  sqlite_step, sqlite_finalize, is_done, column_int,
}
use sshnack.Services.Common.{failure, rollback_and}
use sshnack.Services.Logs.{db_log_cash_transaction}

-- BALANCE_NOT_FOUND
abbrev pub balance_not_found : ℤ
balance_not_found = negsuc 1

unfoldable pub balance_get : ℤ → Prog (ℤ × Option ℤ)
unfolding column_int
balance_get user_id = do
  let sql = select_balance user_id
  ok ← sqlite_prepare sql
  if not ok then ret (failure, none) else do
    rc ← sqlite_step sql
    elim rc [
      | done ↦ sqlite_finalize >> ret (balance_not_found, none)
      | error ↦ sqlite_finalize >> ret (failure, none)
      | row columns ↦ sqlite_finalize >> ret (pos 0, some (column_int columns 0))
    ]

unfoldable pub balance_deposit : ℤ → ℤ → Prog ℤ
unfolding db_log_cash_transaction
balance_deposit user_id amount_gr = if leb_ℤ amount_gr (pos 0) then ret failure else do
  ok ← sqlite_exec begin
  if not ok then ret failure else do
    let sql = upsert_balance user_id amount_gr
    ok ← sqlite_prepare sql
    if not ok then rollback_and failure else do
      rc ← sqlite_step sql
      sqlite_finalize
      if not (is_done rc) then rollback_and failure else do
        logged ← db_log_cash_transaction user_id amount_gr deposit
        if not (eqb_ℤ logged (pos 0))
            then rollback_and failure
            else do ok ← sqlite_exec commit; if not ok then rollback_and failure else ret (pos 0)

-- `balance_reset` once the balance is read. `-balance` is an `int`, which wraps at the least one.
abbrev pub reset_from : ℤ → ℤ → Prog (ℤ × Option ℤ)
reset_from user_id balance =
    if eqb_ℤ balance (pos 0) then rollback_and (pos 0, some (pos 0)) else do
      let sql = reset_balance user_id
      ok ← sqlite_prepare sql
      if not ok then rollback_and (failure, none) else do
        rc ← sqlite_step sql
        sqlite_finalize
        if not (is_done rc) then rollback_and (failure, none) else do
          logged ← db_log_cash_transaction user_id (to_int32 (neg_ℤ balance)) withdrawal
          if not (eqb_ℤ logged (pos 0)) then rollback_and (failure, none) else do
            ok ← sqlite_exec commit
            if not ok then rollback_and (failure, none) else ret (pos 0, some balance)

unfoldable pub balance_reset : ℤ → Prog (ℤ × Option ℤ)
unfolding db_log_cash_transaction column_int
balance_reset user_id = do
  ok ← sqlite_exec begin
  if not ok then ret (failure, none) else do
    let sql = select_balance user_id
    ok ← sqlite_prepare sql
    if not ok then rollback_and (failure, none) else do
      rc ← sqlite_step sql
      elim rc [
        | done ↦ sqlite_finalize >> rollback_and (balance_not_found, none)
        | error ↦ sqlite_finalize >> rollback_and (failure, none)
        | row columns ↦ sqlite_finalize >> reset_from user_id (column_int columns 0)
      ]
