-- ===== src/Services/Orders.antt =====
-- server/src/services/orders_service.c.
pub mod Laws
pub mod Success
use sshnack.Base.{Bool, if◌then◌else◌, not}
use sshnack.Base.Int.{ℤ, pos, negsuc, leb_ℤ, ltb_ℤ, eqb_ℤ, neg_ℤ, to_int32}
use sshnack.Tables.{removal}
use sshnack.Tables.Statements.{
  select_slot, select_balance, deduct_balance, take_one, insert_purchase, Row,
}
use sshnack.Sqlite.{
  begin, commit, Step, row, done, error, Prog, ret, ◌>>=◌, ◌>>◌, sqlite_exec, sqlite_prepare,
  sqlite_step, sqlite_finalize, is_done, column_int,
}
use sshnack.Services.Common.{failure, rollback_and}
use sshnack.Services.Logs.{db_log_stock_change}

-- From the log of the purchase on.
unfoldable pub log_purchase : ℤ → ℤ → ℤ → ℤ → Prog ℤ
unfolding db_log_stock_change column_int
log_purchase user_id slot_id item_id price = do
  let sql = insert_purchase user_id item_id (to_int32 (neg_ℤ price))
  ok ← sqlite_prepare sql
  if not ok then rollback_and failure else do
    rc ← sqlite_step sql
    sqlite_finalize
    if not (is_done rc) then rollback_and failure else do
      logged ← db_log_stock_change slot_id (negsuc 0) removal
      if not (eqb_ℤ logged (pos 0))
          then rollback_and failure
          else do ok ← sqlite_exec commit; if not ok then rollback_and failure else ret (pos 0)

-- The two updates.
unfoldable pub charge : ℤ → ℤ → ℤ → ℤ → Prog ℤ
charge user_id slot_id item_id price = do
  let sql = deduct_balance price user_id
  ok ← sqlite_prepare sql
  if not ok then rollback_and failure else do
    rc ← sqlite_step sql
    sqlite_finalize
    if not (is_done rc) then rollback_and failure else do
      let sql = take_one slot_id
      ok ← sqlite_prepare sql
      if not ok then rollback_and failure else do
        rc ← sqlite_step sql
        sqlite_finalize
        if not (is_done rc)
            then rollback_and failure
            else log_purchase user_id slot_id item_id price

-- From the query of the balance on, once the slot is read.
unfoldable pub check_balance : ℤ → ℤ → ℤ → ℤ → Prog ℤ
unfolding column_int
check_balance user_id slot_id item_id price = do
  let sql = select_balance user_id
  ok ← sqlite_prepare sql
  if not ok then rollback_and failure else do
    rc ← sqlite_step sql
    elim rc [
      | done ↦ sqlite_finalize >> rollback_and failure
      | error ↦ sqlite_finalize >> rollback_and failure
      | row columns ↦
          sqlite_finalize
          >> (if ltb_ℤ (column_int columns 0) price
              then rollback_and failure
              else charge user_id slot_id item_id price)
    ]

unfoldable pub check_slot : ℤ → ℤ → Row → Prog ℤ
unfolding column_int check_balance
check_slot user_id slot_id columns =
    let item_id = column_int columns 0 in
    let price = column_int columns 1 in
    let quantity = column_int columns 2 in
    if leb_ℤ quantity (pos 0)
    then rollback_and failure
    else check_balance user_id slot_id item_id price

unfoldable pub orders_purchase : ℤ → ℤ → Prog ℤ
unfolding check_slot
orders_purchase user_id slot_id = do
  ok ← sqlite_exec begin
  if not ok then ret failure else do
    let sql = select_slot slot_id
    ok ← sqlite_prepare sql
    if not ok then rollback_and failure else do
      rc ← sqlite_step sql
      elim rc [
        | done ↦ sqlite_finalize >> rollback_and failure
        | error ↦ sqlite_finalize >> rollback_and failure
        | row columns ↦ sqlite_finalize >> check_slot user_id slot_id columns
      ]
