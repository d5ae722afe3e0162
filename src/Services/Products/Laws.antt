-- ===== src/Services/Products/Laws.antt =====
-- All or nothing for the functions of products_service.c.
use sshnack.Base.{
  ◌≡◌, Bool, ◌⊎◌, inl, inr, arith, Option, none, some, [], ◌∷◌, ◌++◌, if◌then◌else◌, Option-cases,
  refl, take,
}
use sshnack.Base.Int.{ℤ, pos, ◌+ℤ◌, leb_ℤ, to_int32}
use sshnack.Tables.{
  Tables, Slot, Item, StockLog, addition, find_where, update_where, slot_is, item_is,
}
use sshnack.Tables.Range.{InRange, slot_read, price_read}
use sshnack.Tables.Rows.{find_where-update_where_self}
use sshnack.Tables.Statements.{effect}
use sshnack.Sqlite.{View, Sqlite, IsSqlite, run, column_int, column_text}
use sshnack.Sqlite.Logic.{Wp, Wp-sound}
use sshnack.Services.Common.{Commits, failure, idle}
use sshnack.Services.Products.{Product, product_get, product_restock, product_update_price}

abbrev pub addition_row : Slot → ℤ → StockLog
addition_row s qty = record { item_id = s.item_id; change_type = addition; quantity_changed = qty }

abbrev pub restocked : ℤ → ℤ → Slot → Tables → Tables
restocked sid qty s t = record t {
  stock = update_where (slot_is sid) (λ s'. record s' { quantity = s'.quantity +ℤ qty }) t.stock;
  stock_logs = t.stock_logs ++ addition_row s qty ∷ [];
}

-- What a restock is meant to do: `none` where it is to be refused.
abbrev pub restock_of : ℤ → ℤ → Tables → Option Tables
restock_of sid qty t = if leb_ℤ qty (pos 0) then none else elim (find_where (slot_is sid) t.stock) [
  | none ↦ none
  | some s ↦ some (restocked sid qty s t)
]

product_restock-Wp :
    (sid qty : ℤ) (t : Tables) (fk : Bool)
    → InRange t
    → Wp (product_restock sid qty) (Commits (restock_of sid qty t) t fk) (idle t fk)
unfolding Wp product_restock effect column_int
product_restock-Wp sid qty t fk r = elim (Option-cases (find_where (slot_is sid) t.stock)) [
  | inl e ↦ ground (
    arith,
    e,
    find_where-update_where_self (slot_is sid) (λ s'. record s' { quantity = s'.quantity +ℤ qty })
        t.stock (λ a. refl),
  )
  | inr (s, e) ↦ ground (
    arith,
    e,
    (slot_read r sid s e).0,
    find_where-update_where_self (slot_is sid) (λ s'. record s' { quantity = s'.quantity +ℤ qty })
        t.stock (λ a. refl),
  )
]

-- What a new price is meant to do.
abbrev pub repriced : ℤ → ℤ → Tables → Tables
repriced iid price t = record t {
  items = update_where (item_is iid) (λ i. record i { price = price }) t.items;
}

abbrev pub reprice_of : ℤ → ℤ → Tables → Option Tables
reprice_of iid price t = if leb_ℤ price (pos 0) then none else some (repriced iid price t)

product_update_price-Wp :
    (iid price : ℤ) (t : Tables) (fk : Bool)
    → Wp (product_update_price iid price) (Commits (reprice_of iid price t) t fk) (idle t fk)
unfolding Wp product_update_price effect
product_update_price-Wp iid price t fk = ground arith

-- The product that a slot shows.
abbrev pub product_of : Slot → Item → Product
product_of s i = record {
  slot_id = to_int32 s.slot_id;
  item_id = s.item_id;
  name = take 49 i.name;
  price_gr = i.price;
  stock_qty = s.quantity;
}

abbrev pub found_product : Tables → Option Slot → ℤ × Option Product
found_product t none = (failure, none)
found_product t (some s) = elim (find_where (item_is s.item_id) t.items) [
  | none ↦ (failure, none)
  | some i ↦ (pos 0, some (product_of s i))
]

-- A result, or the error code, over tables that stay as they were.
abbrev pub Reads : ℤ × Option Product → Tables → Bool → ℤ × Option Product → View → Type 0
Reads found t fk r v = (v ≡ idle t fk) × ((r ≡ found) ⊎ (r ≡ (failure, none)))

product_get-Wp :
    (sid : ℤ) (t : Tables) (fk : Bool)
    → InRange t
    → Wp
        (product_get sid)
        (Reads (found_product t (find_where (slot_is sid) t.stock)) t fk)
        (idle t fk)
unfolding Wp product_get effect column_int column_text
product_get-Wp sid t fk r = elim (Option-cases (find_where (slot_is sid) t.stock)) [
  | inl e ↦ ground (arith, e)
  | inr (s, e) ↦ elim (Option-cases (find_where (item_is s.item_id) t.items)) [
    | inl ei ↦ ground (arith, e, ei)
    | inr (i, ei) ↦ ground (
      arith,
      e,
      ei,
      (slot_read r sid s e).0,
      (slot_read r sid s e).1,
      price_read r s.item_id i ei,
    )
  ]
]

module _ (e : Sqlite) (laws : IsSqlite e) (d : e.Db) (t : Tables) (fk : Bool) where
  -- Whatever the library does within its laws, on an idle connection: a restock returns 0, and the
  -- slot holds the amount more and the addition is logged under the slot's item, or it returns -1
  -- and the tables are as they were; it returns -1 for an amount that is not positive and for a
  -- slot that is not there. The numbers of the tables fit an `int`.
  pub product_restock_atomic :
      (sid qty : ℤ)
      → laws.view d ≡ idle t fk
      → InRange t
      → let (rc, d') = run e (product_restock sid qty) d in
        Commits (restock_of sid qty t) t fk rc (laws.view d')
  product_restock_atomic sid qty h r =
      Wp-sound e laws (Commits (restock_of sid qty t) t fk) (product_restock sid qty) d
        (rw h (product_restock-Wp sid qty t fk r))

  -- Whatever the library does within its laws, on an idle connection: a new price that is positive
  -- is set on the item with code 0, where there is one, or the code is -1 and nothing changes; a
  -- price that is not positive is refused with -1.
  pub product_update_price_atomic :
      (iid price : ℤ)
      → laws.view d ≡ idle t fk
      → let (rc, d') = run e (product_update_price iid price) d in
        Commits (reprice_of iid price t) t fk rc (laws.view d')
  product_update_price_atomic iid price h =
      Wp-sound e laws (Commits (reprice_of iid price t) t fk) (product_update_price iid price) d
        (rw h (product_update_price-Wp iid price t fk))

  -- Reading a product changes nothing, and gives the slot joined with its item, the name cut to 49
  -- bytes, or -1 where the slot or its item is not there or the library fails. The numbers of the
  -- tables fit an `int`.
  pub product_get-Reads :
      (sid : ℤ)
      → laws.view d ≡ idle t fk
      → InRange t
      → let (r, d') = run e (product_get sid) d in
        Reads (found_product t (find_where (slot_is sid) t.stock)) t fk r (laws.view d')
  product_get-Reads sid h r =
      Wp-sound e laws (Reads (found_product t (find_where (slot_is sid) t.stock)) t fk)
        (product_get sid) d (rw h (product_get-Wp sid t fk r))
