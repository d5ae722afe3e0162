-- ===== src/Ledger.antt =====
-- The books that init.sql keeps beside the balances and the quantities: `transactions` and
-- `stock_logs`; and the calls of the services as steps from one set of tables to the next.
pub mod Balances
pub mod Steps
mod Tests
use sshnack.Base.{◌≡◌, Bool, Option, none, some, List, [], ◌∷◌, if◌then◌else◌, ℕ}
use sshnack.Base.Int.{ℤ, pos, ◌+ℤ◌, eqb_ℤ}
use sshnack.Base.Text.{Text}
use sshnack.Tables.{User, Transaction, Tables, find_where, user_is}
use sshnack.Tables.Range.{InRange}
use sshnack.Sqlite.{Prog, ret, ◌>>=◌, ◌>>◌, Sqlite, IsSqlite, run}
use sshnack.Services.Common.{idle}
use sshnack.Services.Balance.{balance_get, balance_deposit, balance_reset}
use sshnack.Services.Orders.{orders_purchase}
use sshnack.Services.Products.{product_get, product_restock, product_update_price}
use sshnack.Services.Products.Listing.{products_list}
use sshnack.Services.Users.{users_lookup}

-- The sum of all amounts booked for a user.
unfoldable pub booked : ℤ → List Transaction → ℤ
booked uid [] = pos 0
booked uid (x ∷ rows) = (if eqb_ℤ x.user_id uid then x.total_amount else pos 0) +ℤ booked uid rows

abbrev pub user_balance : Option User → ℤ
user_balance none = pos 0
user_balance (some u) = u.balance

abbrev pub balance_of : ℤ → List User → ℤ
balance_of uid users = user_balance (find_where (user_is uid) users)

-- Every balance is the sum of what is booked for its user.
abbrev pub IsBalanced : Tables → Type 0
IsBalanced t = (uid : ℤ) → balance_of uid t.users ≡ booked uid t.transactions

-- The calls that the handlers make.
pub data ServiceCall : Type 0 where
  get_balance reset get_product : ℤ → ServiceCall
  deposit purchase restock update_price : ℤ → ℤ → ServiceCall
  lookup : Text → ServiceCall
  list : (gives : ℕ → Bool) → ServiceCall

abbrev pub service : ServiceCall → Prog (Unit {0})
service (ServiceCall.get_balance uid) = balance_get uid >> ret tt
service (ServiceCall.reset uid) = balance_reset uid >> ret tt
service (ServiceCall.get_product sid) = product_get sid >> ret tt
service (ServiceCall.deposit uid amount) = balance_deposit uid amount >> ret tt
service (ServiceCall.purchase uid sid) = orders_purchase uid sid >> ret tt
service (ServiceCall.restock sid qty) = product_restock sid qty >> ret tt
service (ServiceCall.update_price iid price) = product_update_price iid price >> ret tt
service (ServiceCall.lookup fp) = users_lookup fp >> ret tt
service (ServiceCall.list gives) = products_list gives >> ret tt
