-- ===== src/Services/Orders/Laws.antt =====
-- What `orders_purchase` is meant to do, and that it does that or nothing.
use sshnack.Base.{
  ◌≡◌, Bool, inl, inr, arith, Option, none, some, [], ◌∷◌, ◌++◌, refl, if◌then◌else◌, ◌&&◌,
  Option-cases, List, ◌∙◌, ap,
}
use sshnack.Base.Int.{ℤ, pos, negsuc, ◌-ℤ◌, to_int32, to_int32-neg, leb_ℤ, ltb_ℤ, neg_ℤ}
use sshnack.Tables.{
  User, Item, Slot, Tables, Transaction, purchase, StockLog, removal, find_where, update_where,
  user_is, item_is, slot_is,
}
use sshnack.Tables.Range.{InRange, found_price, price_read, balance_read, slot_read}
use sshnack.Tables.Rows.{find_where-update_where_self, map_row}
use sshnack.Tables.Statements.{effect}
use sshnack.Sqlite.{View, Sqlite, IsSqlite, run}
use sshnack.Sqlite.Logic.{Wp, Wp-sound}
use sshnack.Services.Common.{Commits, idle}
use sshnack.Services.Orders.{log_purchase, charge, orders_purchase}

abbrev pub purchase_row : ℤ → ℤ → ℤ → Transaction
purchase_row uid iid price = record {
  type = purchase;
  user_id = uid;
  item_id = some iid;
  quantity = some (pos 1);
  total_amount = neg_ℤ price;
}

abbrev pub removal_row : ℤ → StockLog
removal_row iid = record { item_id = iid; change_type = removal; quantity_changed = negsuc 0 }

abbrev pub paid : ℤ → ℤ → List User → List User
paid uid price = update_where (user_is uid) (λ u. record u { balance = u.balance -ℤ price })

abbrev pub taken : ℤ → List Slot → List Slot
taken sid = update_where (slot_is sid) (λ s. record s { quantity = s.quantity -ℤ pos 1 })

-- The tables after a purchase of the item `i` from the slot `s`.
abbrev pub purchased : ℤ → ℤ → Slot → Item → Tables → Tables
purchased uid sid s i t = record t {
  users = paid uid i.price t.users;
  stock = taken sid t.stock;
  transactions = t.transactions ++ purchase_row uid s.item_id i.price ∷ [];
  stock_logs = t.stock_logs ++ removal_row s.item_id ∷ [];
}

-- What a purchase is meant to do: `none` where it is to be refused.
abbrev pub purchase_from : ℤ → ℤ → Tables → Option User → Slot → Option Item → Option Tables
purchase_from uid sid t none s i = none
purchase_from uid sid t (some u) s none = none
purchase_from uid sid t (some u) s (some i) =
    if ltb_ℤ (pos 0) s.quantity && leb_ℤ i.price u.balance
    then some (purchased uid sid s i t)
    else none

abbrev pub purchase_of : ℤ → ℤ → Tables → Option Tables
purchase_of uid sid t = elim (find_where (slot_is sid) t.stock) [
  | none ↦ none
  | some s ↦
      purchase_from uid sid t (find_where (user_is uid) t.users) s
        (find_where (item_is s.item_id) t.items)
]

-- Inside the transaction that began at the tables `before`.
abbrev within : Tables → Tables → Bool → View
within t before fk = record { tables = t; saved = some before; pending = 0; foreign_keys = fk }

abbrev Done : Tables → Tables → Bool → ℤ → View → Type 0
Done before after fk = Commits (some after) before fk

log_purchase-Wp :
    (uid sid iid price : ℤ) (t before : Tables) (fk : Bool) (s : Slot)
    → find_where (slot_is sid) t.stock ≡ some s
    → to_int32 s.item_id ≡ iid
    → to_int32 (neg_ℤ price) ≡ neg_ℤ price
    → Wp
        (log_purchase uid sid iid price)
        (Done before
          (record t {
            transactions = t.transactions ++ purchase_row uid iid price ∷ [];
            stock_logs = t.stock_logs ++ removal_row iid ∷ [];
          })
          fk)
        (within t before fk)
unfolding Wp log_purchase effect
log_purchase-Wp uid sid iid price t before fk s e ei ep = ground (arith, e, ei, ep)

charge-Wp :
    (uid sid : ℤ) (t : Tables) (fk : Bool) (s : Slot) (i : Item)
    → find_where (slot_is sid) t.stock ≡ some s
    → to_int32 s.item_id ≡ s.item_id
    → to_int32 (neg_ℤ i.price) ≡ neg_ℤ i.price
    → Wp (charge uid sid s.item_id i.price) (Done t (purchased uid sid s i t) fk) (within t t fk)
unfolding Wp charge effect
charge-Wp uid sid t fk s i e ei ep = ground (
  arith,
  log_purchase-Wp uid sid s.item_id i.price
      (record t { users = paid uid i.price t.users; stock = taken sid t.stock }) t fk
      (record s { quantity = s.quantity -ℤ pos 1 })
      (find_where-update_where_self (slot_is sid)
          (λ s'. record s' { quantity = s'.quantity -ℤ pos 1 }) t.stock (λ a. refl)
        ∙ ap (map_row (λ (s' : Slot). record s' { quantity = s'.quantity -ℤ pos 1 })) e)
      ei ep,
)

orders_purchase-Wp :
    (uid sid : ℤ) (t : Tables) (fk : Bool)
    → InRange t
    → Wp (orders_purchase uid sid) (Commits (purchase_of uid sid t) t fk) (idle t fk)
unfolding Wp orders_purchase effect
orders_purchase-Wp uid sid t fk r = elim (Option-cases (find_where (slot_is sid) t.stock)) [
  | inl e ↦ ground (arith, e)
  | inr (s, e) ↦ elim (Option-cases (find_where (item_is s.item_id) t.items)) [
    | inl ei ↦ ground (arith, e, ei)
    | inr (i, ei) ↦ elim (Option-cases (find_where (user_is uid) t.users)) [
      | inl eu ↦ ground (arith, e, ei, eu, (slot_read r sid s e).1)
      | inr (u, eu) ↦ ground (
        arith,
        e,
        ei,
        eu,
        price_read r s.item_id i ei,
        balance_read r uid u eu,
        (slot_read r sid s e).0,
        (slot_read r sid s e).1,
        charge-Wp uid sid t fk s i e (slot_read r sid s e).0 (
            to_int32-neg i.price (found_price r s.item_id i ei).1 (found_price r s.item_id i ei).0),
      )
    ]
  ]
]

-- Whatever the library does within its laws, and on every error path: a purchase returns 0 and
-- makes exactly the changes of the specification, or it returns -1 and leaves the tables as they
-- were; it returns -1 where the specification refuses it. It leaves no transaction open and no
-- statement pending. The connection is idle before, and the numbers of the tables fit an `int`, with
-- no balance negative and every price positive.
pub orders_purchase_atomic :
    (e : Sqlite) (laws : IsSqlite e) (d : e.Db) (uid sid : ℤ) (t : Tables) (fk : Bool)
    → laws.view d ≡ idle t fk
    → InRange t
    → Commits
        (purchase_of uid sid t)
        t
        fk
        (run e (orders_purchase uid sid) d).0
        (laws.view (run e (orders_purchase uid sid) d).1)
orders_purchase_atomic e laws d uid sid t fk h r =
    Wp-sound e laws (Commits (purchase_of uid sid t) t fk) (orders_purchase uid sid) d
      (rw h (orders_purchase-Wp uid sid t fk r))
