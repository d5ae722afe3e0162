-- ===== src/Services/Logs.antt =====
-- `db_log_cash_transaction` and `db_log_stock_change` of server/src/db/db.c.
use sshnack.Base.{if◌then◌else◌, not}
use sshnack.Base.Int.{ℤ, pos}
use sshnack.Tables.{TransactionType, ChangeType}
use sshnack.Tables.Statements.{insert_cash, select_slot_item, insert_stock_log}
use sshnack.Sqlite.{
  row, done, error, Prog, ret, ◌>>=◌, ◌>>◌, sqlite_prepare, sqlite_step, sqlite_finalize, is_done,
  column_int,
}
use sshnack.Services.Common.{failure}

unfoldable pub db_log_cash_transaction : ℤ → ℤ → TransactionType → Prog ℤ
db_log_cash_transaction user_id amount_gr type = do
  let sql = insert_cash type user_id amount_gr
  ok ← sqlite_prepare sql
  if not ok then ret failure else do
    rc ← sqlite_step sql
    sqlite_finalize
    if not (is_done rc) then ret failure else ret (pos 0)

-- The second half: the row for the item of the slot.
abbrev insert_change : ℤ → ℤ → ChangeType → Prog ℤ
insert_change item_id change_qty type = do
  let sql = insert_stock_log item_id type change_qty
  ok ← sqlite_prepare sql
  if not ok then ret failure else do
    rc ← sqlite_step sql
    sqlite_finalize
    if not (is_done rc) then ret failure else ret (pos 0)

unfoldable pub db_log_stock_change : ℤ → ℤ → ChangeType → Prog ℤ
unfolding column_int
db_log_stock_change slot_id change_qty type = do
  let sql = select_slot_item slot_id
  ok ← sqlite_prepare sql
  if not ok then ret failure else do
    rc ← sqlite_step sql
    elim rc [
      | row columns ↦ sqlite_finalize >> insert_change (column_int columns 0) change_qty type
      | done ↦ sqlite_finalize >> ret failure
      | error ↦ sqlite_finalize >> ret failure
    ]
