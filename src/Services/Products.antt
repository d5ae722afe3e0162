-- ===== src/Services/Products.antt =====
-- server/src/services/products_service.c. `products_list` is in Listing.
pub mod Laws
pub mod Listing
use sshnack.Base.{Bool, Option, none, some, if◌then◌else◌, not, take}
use sshnack.Base.Int.{ℤ, pos, leb_ℤ, eqb_ℤ}
use sshnack.Base.Text.{Text}
use sshnack.Tables.{addition}
use sshnack.Tables.Statements.{select_product, add_stock, set_price}
use sshnack.Sqlite.{
  begin, commit, Step, row, done, error, Prog, ret, ◌>>=◌, ◌>>◌, sqlite_exec, sqlite_prepare,
  sqlite_step, sqlite_finalize, is_done, column_int, column_text,
}
use sshnack.Services.Common.{failure, rollback_and}
use sshnack.Services.Logs.{db_log_stock_change}

-- `product_t`, whose name has room for 49 bytes and a NUL.
pub record Product : Type 0 where
  pub slot_id : ℤ
  pub item_id : ℤ
  pub name : Text
  pub price_gr : ℤ
  pub stock_qty : ℤ

unfoldable pub product_get : ℤ → Prog (ℤ × Option Product)
unfolding column_int column_text
product_get slot_id = do
  let sql = select_product slot_id
  ok ← sqlite_prepare sql
  if not ok then ret (failure, none) else do
    rc ← sqlite_step sql
    elim rc [
      | done ↦ sqlite_finalize >> ret (failure, none)
      | error ↦ sqlite_finalize >> ret (failure, none)
      | row columns ↦
          let out : Product = record {
            slot_id = column_int columns 0;
            item_id = column_int columns 1;
            name = take 49 (column_text columns 2);
            price_gr = column_int columns 3;
            stock_qty = column_int columns 4;
          } in
          sqlite_finalize >> ret (pos 0, some out)
    ]

unfoldable pub product_restock : ℤ → ℤ → Prog ℤ
unfolding db_log_stock_change
product_restock slot_id qty = if leb_ℤ qty (pos 0) then ret failure else do
  ok ← sqlite_exec begin
  if not ok then ret failure else do
    let sql = add_stock qty slot_id
    ok ← sqlite_prepare sql
    if not ok then rollback_and failure else do
      rc ← sqlite_step sql
      sqlite_finalize
      if not (is_done rc) then rollback_and failure else do
        logged ← db_log_stock_change slot_id qty addition
        if not (eqb_ℤ logged (pos 0))
            then rollback_and failure
            else do ok ← sqlite_exec commit; if not ok then rollback_and failure else ret (pos 0)

unfoldable pub product_update_price : ℤ → ℤ → Prog ℤ
product_update_price item_id price_gr = if leb_ℤ price_gr (pos 0) then ret failure else do
  let sql = set_price price_gr item_id
  ok ← sqlite_prepare sql
  if not ok then ret failure else do
    rc ← sqlite_step sql
    sqlite_finalize
    if not (is_done rc) then ret failure else ret (pos 0)
