-- ===== src/Tables/Range.antt =====
-- Tables whose numbers fit an `int`, so that `sqlite3_column_int` reads them unchanged.
use sshnack.Base.{◌≡◌, some, All}
use sshnack.Base.Int.{ℤ, pos, ◌≤ℤ◌, ◌<ℤ◌, IsInt, to_int32, to_int32_of_IsInt}
use sshnack.Tables.{User, Item, Slot, Tables, find_where, user_is, item_is, slot_is}
use sshnack.Tables.Rows.{All-find_where}

-- The balances keep their CHECK, and the prices are positive.
pub record InRange (t : Tables) : Type 0 where
  pub balances : All (λ u. (pos 0 ≤ℤ u.balance) × IsInt u.balance) t.users
  pub prices : All (λ i. (pos 0 <ℤ i.price) × IsInt i.price) t.items
  pub slots : All (λ s. IsInt s.item_id × IsInt s.quantity) t.stock

module _ {t : Tables} (r : InRange t) where
  pub found_balance :
      (uid : ℤ) (u : User)
      → find_where (user_is uid) t.users ≡ some u
      → (pos 0 ≤ℤ u.balance) × IsInt u.balance
  found_balance uid u e =
      All-find_where (λ x. (pos 0 ≤ℤ x.balance) × IsInt x.balance) (user_is uid) t.users u
        r.balances e

  pub balance_read :
      (uid : ℤ) (u : User)
      → find_where (user_is uid) t.users ≡ some u
      → to_int32 u.balance ≡ u.balance
  balance_read uid u e = to_int32_of_IsInt u.balance (found_balance uid u e).1

  pub found_price :
      (iid : ℤ) (i : Item)
      → find_where (item_is iid) t.items ≡ some i
      → (pos 0 <ℤ i.price) × IsInt i.price
  found_price iid i e =
      All-find_where (λ x. (pos 0 <ℤ x.price) × IsInt x.price) (item_is iid) t.items i r.prices e

  pub price_read :
      (iid : ℤ) (i : Item) → find_where (item_is iid) t.items ≡ some i → to_int32 i.price ≡ i.price
  price_read iid i e = to_int32_of_IsInt i.price (found_price iid i e).1

  pub slot_read :
      (sid : ℤ) (s : Slot)
      → find_where (slot_is sid) t.stock ≡ some s
      → (to_int32 s.item_id ≡ s.item_id) × (to_int32 s.quantity ≡ s.quantity)
  slot_read sid s e =
      let h =
        All-find_where (λ x. IsInt x.item_id × IsInt x.quantity) (slot_is sid) t.stock s r.slots
          e in
      (to_int32_of_IsInt s.item_id h.0, to_int32_of_IsInt s.quantity h.1)
