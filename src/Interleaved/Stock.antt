-- ===== src/Interleaved/Stock.antt =====
-- `product_restock`, and the updates of `orders_purchase`, among the calls of other workers.
use sshnack.Base.{
  ◌≡◌, arith, Bool, none, some, List, if◌then◌else◌, Option-cases, Bool-cases, inl, inr, not,
}
use sshnack.Base.Int.{ℤ, pos, leb_ℤ, eqb_ℤ, neg_ℤ, to_int32, negsuc, ◌+ℤ◌}
use sshnack.Tables.{
  User, user_is, removal, Item, Tables, find_where, slot_is, ChangeType, update_where, addition,
}
use sshnack.Tables.Statements.{effect, take_one, deduct_balance, insert_purchase, add_stock}
use sshnack.Sqlite.{Prog, ret, Step, done, ◌>>=◌, sqlite_exec, commit}
use sshnack.Services.Common.{failure, rollback_and}
use sshnack.Services.Logs.{db_log_stock_change}
use sshnack.Services.Products.{product_restock}
use sshnack.Services.Orders.Laws.{taken, paid, purchase_row}
use sshnack.Services.Balance.Laws.{log_row}
use sshnack.Services.Orders.{charge, log_purchase}
use sshnack.Ledger.Balances.{paid-IsBalanced}
use sshnack.Ledger.{IsBalanced}
use sshnack.Interleaved.Safe.{Safe, After, with_items}

-- The log of a stock change, and COMMIT if it succeeds: nothing of this touches the books.
abbrev pub close : ℤ → Prog ℤ
close logged =
    if not (eqb_ℤ logged (pos 0))
    then rollback_and failure
    else do ok ← sqlite_exec commit; if not ok then rollback_and failure else ret (pos 0)

stock_commit-Safe :
    (t : Tables) (sid qty : ℤ) (type : ChangeType)
    → IsBalanced t
    → Safe (some t) (db_log_stock_change sid qty type >>= close)
unfolding Safe db_log_stock_change effect
stock_commit-Safe t sid qty type b = (
  (
    (tt, tt),
    λ items fk r. elim (Option-cases (find_where (slot_is sid) t.stock)) [
      | inl e ↦ rw e (tt, tt)
      | inr (s, e) ↦ rw e ((((tt, tt), λ items' fk' r'. ground (arith, b)), (tt, tt)))
    ],
  ),
  (tt, tt),
)

abbrev restocked : ℤ → ℤ → Tables → Tables
restocked qty sid t = record t {
  stock = update_where (slot_is sid) (λ s. record s { quantity = s.quantity +ℤ qty }) t.stock;
}

-- The statements that change the tables, where their constraints let them.
module _ (P : Step → Tables → Type 0) (t : Tables) (items : List Item) (fk : Bool) where
  add-After :
      (qty sid : ℤ)
      → P done (with_items items (restocked qty sid t))
      → After (effect fk (add_stock qty sid) (with_items items t)) P
  unfolding effect
  add-After qty sid h = ground (arith, h)

  take-After :
      (sid : ℤ)
      → P done (with_items items (record t { stock = taken sid t.stock }))
      → After (effect fk (take_one sid) (with_items items t)) P
  unfolding effect
  take-After sid h = ground (arith, h)

  deduct-After :
      (price uid : ℤ)
      → P done (with_items items (record t { users = paid uid price t.users }))
      → After (effect fk (deduct_balance price uid) (with_items items t)) P
  unfolding effect
  deduct-After price uid h = ground (arith, h)

  purchase-After :
      (uid iid price : ℤ)
      → P done (with_items items (log_row (purchase_row uid iid price) t))
      → After (effect fk (insert_purchase uid iid (neg_ℤ price)) (with_items items t)) P
  unfolding effect
  purchase-After uid iid price h = ground (arith, h)

pub product_restock-Safe : (sid qty : ℤ) → Safe none (product_restock sid qty)
unfolding Safe product_restock
product_restock-Safe sid qty = elim (Bool-cases (leb_ℤ qty (pos 0))) [
  | inl y ↦ rw y tt
  | inr n ↦ rw n (
    λ t b. (
      (
        (tt, tt),
        λ items fk r.
            add-After _ t items fk qty sid
              (stock_commit-Safe (with_items items (restocked qty sid t)) sid qty addition b),
      ),
      (tt, tt),
    ),
    tt,
  )
]

log_purchase-Safe :
    (uid sid iid price : ℤ) (t : Tables)
    → to_int32 (neg_ℤ price) ≡ neg_ℤ price
    → IsBalanced (log_row (purchase_row uid iid price) t)
    → Safe (some t) (log_purchase uid sid iid price)
unfolding Safe log_purchase
log_purchase-Safe uid sid iid price t neg b = rw neg (
  (
    (tt, tt),
    λ items fk r. purchase-After _ t items fk uid iid price (
        stock_commit-Safe (with_items items (log_row (purchase_row uid iid price) t)) sid (negsuc 0)
          removal b),
  ),
  (tt, tt),
)

pub charge-Safe :
    (uid sid iid price : ℤ) (t : Tables) (u : User)
    → find_where (user_is uid) t.users ≡ some u
    → to_int32 (neg_ℤ price) ≡ neg_ℤ price
    → IsBalanced t
    → Safe (some t) (charge uid sid iid price)
unfolding Safe charge
charge-Safe uid sid iid price t u e neg b = (
  (
    (tt, tt),
    λ items fk r. deduct-After _ t items fk price uid (
      (
        (tt, tt),
        λ items' fk' r'.
            take-After _ (record t { users = paid uid price t.users }) items' fk' sid
              (log_purchase-Safe uid sid iid price
                (record t {
                  users = paid uid price t.users;
                  items = items';
                  stock = taken sid t.stock;
                })
                neg (paid-IsBalanced uid iid price t u e b)),
      ),
      (tt, tt),
    ),
  ),
  (tt, tt),
)
