-- ===== src/Services/Orders/Success.antt =====
-- Where no call fails, `orders_purchase` succeeds exactly where its specification allows it.
use sshnack.Base.{◌≡◌, Bool, arith, some, refl, ap, ◌∙◌}
use sshnack.Base.Int.{ℤ, pos, ◌-ℤ◌, to_int32-neg, ◌<ℤ◌, ◌≤ℤ◌, -ℤ_parts}
use sshnack.Tables.{
  User, Item, Slot, Tables, find_where, update_where, user_is, item_is, slot_is, check_user,
  check_slot,
}
use sshnack.Tables.Range.{InRange, found_price, price_read, balance_read, slot_read}
use sshnack.Tables.Rows.{find_where-update_where_self, map_row, Once, all_where-Once}
use sshnack.Tables.Statements.{effect}
use sshnack.Sqlite.{run}
use sshnack.Sqlite.Faulty.{faulty, calm, faulty_exec, faulty_prepare, faulty_step}
use sshnack.Services.Common.{idle}
use sshnack.Services.Orders.{log_purchase, charge, orders_purchase}
use sshnack.Services.Orders.Laws.{purchased}

module _ (uid sid : ℤ) (t : Tables) (fk : Bool) (s : Slot) (i : Item) (u : User) (r : InRange t)
    (e : find_where (slot_is sid) t.stock ≡ some s)
    (ei : find_where (item_is s.item_id) t.items ≡ some i)
    (eu : find_where (user_is uid) t.users ≡ some u) where
  slot_after :
      find_where
        (slot_is sid)
        (update_where (slot_is sid) (λ s'. record s' { quantity = s'.quantity -ℤ pos 1 }) t.stock)
      ≡ some (record s { quantity = s.quantity -ℤ pos 1 })
  slot_after =
      find_where-update_where_self (slot_is sid)
        (λ s'. record s' { quantity = s'.quantity -ℤ pos 1 }) t.stock (λ a. refl)
      ∙ ap (map_row (λ (s' : Slot). record s' { quantity = s'.quantity -ℤ pos 1 })) e

  user_after :
      find_where
        (user_is uid)
        (update_where (user_is uid) (λ u'. record u' { balance = u'.balance -ℤ i.price }) t.users)
      ≡ some (record u { balance = u.balance -ℤ i.price })
  user_after =
      find_where-update_where_self (user_is uid)
        (λ u'. record u' { balance = u'.balance -ℤ i.price }) t.users (λ a. refl)
      ∙ ap (map_row (λ (u' : User). record u' { balance = u'.balance -ℤ i.price })) eu

  -- Where no call fails, a purchase goes through if the slot is not empty and the balance covers the
  -- price: with code 0, to the tables in which the product is paid, taken and in both books. The slot,
  -- its item and the user are in the tables, the user and the slot with one row each, and the tables
  -- are in range: balances, prices, item numbers and quantities fit an `int`, no balance is negative
  -- and every price is positive.
  pub orders_purchase_succeeds :
      Once (user_is uid) t.users
      → Once (slot_is sid) t.stock
      → pos 0 <ℤ s.quantity
      → i.price ≤ℤ u.balance
      → run faulty (orders_purchase uid sid) (calm (idle t fk))
        ≡ (pos 0, calm (idle (purchased uid sid s i t) fk))
  unfolding run faulty_exec faulty_prepare faulty_step orders_purchase charge log_purchase effect
  orders_purchase_succeeds ou os hq hb = ground (
    arith,
    e,
    ei,
    eu,
    price_read r s.item_id i ei,
    balance_read r uid u eu,
    (slot_read r sid s e).0,
    (slot_read r sid s e).1,
    (found_price r s.item_id i ei).0,
    to_int32-neg i.price (found_price r s.item_id i ei).1 (found_price r s.item_id i ei).0,
    slot_after,
    user_after,
    all_where-Once (user_is uid) (λ u'. check_user (record u' { balance = u'.balance -ℤ i.price }))
        t.users u ou eu (ground (arith, -ℤ_parts u.balance i.price)),
    all_where-Once (slot_is sid) (λ s'. check_slot (record s' { quantity = s'.quantity -ℤ pos 1 }))
        t.stock s os e (ground (arith, -ℤ_parts s.quantity (pos 1))),
  )
