-- ===== src/Interleaved/Purchase.antt =====
-- `orders_purchase` of server/src/services/orders_service.c among the calls of other workers.
use sshnack.Base.{◌≡◌, Bool-cases, inl, inr, Option-cases, none, some}
use sshnack.Base.{[], ◌∷◌, if◌then◌else◌}
use sshnack.Base.Int.{ℤ, pos, leb_ℤ, ltb_ℤ, neg_ℤ, to_int32, to_int32-neg}
use sshnack.Tables.{Tables, User, Slot, Item, find_where, user_is, slot_is, item_is}
use sshnack.Tables.Range.{InRange, found_price, price_read}
use sshnack.Tables.Statements.{effect, Row, int}
use sshnack.Sqlite.{column_int}
use sshnack.Base.{List}
use sshnack.Services.Common.{rollback_and, failure}
use sshnack.Services.Orders.{orders_purchase, check_slot, check_balance, charge}
use sshnack.Ledger.{IsBalanced}
use sshnack.Interleaved.Safe.{Safe, with_items}
use sshnack.Interleaved.Stock.{charge-Safe}

check_balance-Safe :
    (uid sid iid price : ℤ) (t : Tables)
    → to_int32 (neg_ℤ price) ≡ neg_ℤ price
    → IsBalanced t
    → Safe (some t) (check_balance uid sid iid price)
unfolding Safe check_balance effect
check_balance-Safe uid sid iid price t neg b = (
  (
    (tt, tt),
    λ items fk r. elim (Option-cases (find_where (user_is uid) t.users)) [
      | inl e ↦ rw e (tt, tt)
      | inr (u, e) ↦ rw e (paying u e items)
    ],
  ),
  (tt, tt),
)
  where
    paying :
        (u : User)
        → find_where (user_is uid) t.users ≡ some u
        → (items : List Item)
        → Safe (some (with_items items t)) (
            if ltb_ℤ (column_int (int u.balance ∷ []) 0) price
            then rollback_and failure
            else charge uid sid iid price)
    paying u e items = elim (Bool-cases (ltb_ℤ (column_int (int u.balance ∷ []) 0) price)) [
      | inl y ↦ rw y (tt, tt)
      | inr n ↦ rw n (charge-Safe uid sid iid price (with_items items t) u e neg b)
    ]

check_slot-Safe :
    (uid sid : ℤ) (columns : Row) (t : Tables)
    → to_int32 (neg_ℤ (column_int columns 1)) ≡ neg_ℤ (column_int columns 1)
    → IsBalanced t
    → Safe (some t) (check_slot uid sid columns)
unfolding Safe check_slot
check_slot-Safe uid sid columns t neg b = elim (Bool-cases (leb_ℤ (column_int columns 2) (pos 0))) [
  | inl y ↦ rw y (tt, tt)
  | inr n ↦ rw n (check_balance-Safe uid sid (column_int columns 0) (column_int columns 1) t neg b)
]

-- The columns that `select_slot` reads, and the price among them.
abbrev slot_columns : Slot → Item → Row
slot_columns s i = int s.item_id ∷ int i.price ∷ int s.quantity ∷ []

price_column :
    {t : Tables}
    → InRange t
    → (s : Slot) (i : Item) → find_where (item_is s.item_id) t.items ≡ some i
    → to_int32 (neg_ℤ (column_int (slot_columns s i) 1)) ≡ neg_ℤ (column_int (slot_columns s i) 1)
unfolding column_int
price_column r s i e =
    rw (price_read r s.item_id i e)
      (to_int32-neg i.price (found_price r s.item_id i e).1 (found_price r s.item_id i e).0)

pub orders_purchase-Safe : (uid sid : ℤ) → Safe none (orders_purchase uid sid)
unfolding Safe orders_purchase effect
orders_purchase-Safe uid sid = (
  λ t b. (
    (
      (tt, tt),
      λ items fk r. elim (Option-cases (find_where (slot_is sid) t.stock)) [
        | inl e ↦ rw e (tt, tt)
        | inr (s, e) ↦ elim (Option-cases (find_where (item_is s.item_id) items)) [
          | inl ei ↦ rw (e, ei) (tt, tt)
          | inr (i, ei) ↦
              rw (e, ei)
                (check_slot-Safe uid sid (slot_columns s i) (with_items items t)
                  (price_column r s i ei) b)
        ]
      ],
    ),
    (tt, tt),
  ),
  tt,
)
