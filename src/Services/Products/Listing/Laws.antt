-- ===== src/Services/Products/Listing/Laws.antt =====
-- What `products_list` gives: every slot that has an item, in the order of the slots.
use sshnack.Base.{
  ℕ, ◌≡◌, ◌⊎◌, inl, inr, refl, Bool, Option, none, some, List, [], ◌∷◌, ◌++◌, arith, All, map, take,
  Option-cases, Bool-cases,
}
use sshnack.Base.Int.{ℤ, pos, ◌≤ℤ◌, leb_ℤ, IsInt, to_int32, to_int32_of_IsInt}
use sshnack.Tables.{Slot, Item, Tables, find_where, item_is}
use sshnack.Tables.Statements.{effect, ordered_slots, insert_slot, join_items, product_row}
use sshnack.Sqlite.{View, Sqlite, IsSqlite, run}
use sshnack.Sqlite.Logic.{Wp, Wp-sound}
use sshnack.Services.Common.{idle, failure}
use sshnack.Services.Products.{Product}
use sshnack.Services.Products.Listing.{products_list, read_product}
use sshnack.Services.Products.Listing.Array.{fill-goes_through}
use mathlib.Core.List.{Perm, perm_append_comm, append_assoc}
use mathlib.Core.List.Perm

-- The product that is read from a slot and its item: of each number its low 32 bits, of the name 49
-- bytes.
abbrev pub product_read : Slot → Item → Product
product_read s i = record {
  slot_id = to_int32 s.slot_id;
  item_id = to_int32 s.item_id;
  name = take 49 i.name;
  price_gr = to_int32 i.price;
  stock_qty = to_int32 s.quantity;
}

abbrev pub shown_slot : Slot → Option Item → List Product
shown_slot s none = []
shown_slot s (some i) = product_read s i ∷ []

-- The products of some slots; a slot whose item is not there has none.
unfoldable pub shown : Tables → List Slot → List Product
shown t [] = []
shown t (s ∷ rows) = shown_slot s (find_where (item_is s.item_id) t.items) ++ shown t rows

-- The slots' numbers do not fall.
abbrev pub Ascends : List Product → Type 0
Ascends [] = Unit
Ascends (p ∷ ps) = All (λ q. p.slot_id ≤ℤ q.slot_id) ps × Ascends ps

pub map-join_items :
    (t : Tables) (rows : List Slot)
    → map read_product (join_items product_row t rows) ≡ shown t rows
unfolding join_items shown read_product
map-join_items t [] = refl
map-join_items t (s ∷ rows) = elim (Option-cases (find_where (item_is s.item_id) t.items)) [
  | inl e ↦ rw (e, map-join_items t rows)
  | inr (i, e) ↦ rw (e, map-join_items t rows)
]

swap_front : {A : Type 0} (a b c : List A) → Perm (a ++ (b ++ c)) (b ++ (a ++ c))
swap_front a b c =
    rw (← append_assoc a b c, ← append_assoc b a c) (Perm.append_right c (perm_append_comm a b))

-- Sorting the slots only reorders their products.
shown-insert_slot :
    (t : Tables) (s : Slot) (rows : List Slot)
    → Perm (shown t (insert_slot s rows)) (shown t (s ∷ rows))
unfolding insert_slot shown
shown-insert_slot t s [] = Perm.refl _
shown-insert_slot t s (s' ∷ rows) = elim (Bool-cases (leb_ℤ s.slot_id s'.slot_id)) [
  | inl y ↦ rw y (Perm.refl _)
  | inr n ↦
      let mine = shown_slot s (find_where (item_is s.item_id) t.items) in
      let other = shown_slot s' (find_where (item_is s'.item_id) t.items) in
      rw n (
        Perm.trans (Perm.append_left other (shown-insert_slot t s rows))
          (swap_front other mine (shown t rows)))
]

pub shown-ordered_slots :
    (t : Tables) (rows : List Slot) → Perm (shown t (ordered_slots rows)) (shown t rows)
unfolding ordered_slots shown
shown-ordered_slots t [] = Perm.refl _
shown-ordered_slots t (s ∷ rows) = Perm.trans (shown-insert_slot t s (ordered_slots rows)) (
    Perm.append_left (shown_slot s (find_where (item_is s.item_id) t.items))
      (shown-ordered_slots t rows))

-- The rows are sorted by their number.
abbrev SlotsAscend : List Slot → Type 0
SlotsAscend [] = Unit
SlotsAscend (s ∷ rows) = All (λ s'. s.slot_id ≤ℤ s'.slot_id) rows × SlotsAscend rows

All-insert_slot :
    (P : Slot → Type 0) (s : Slot) (rows : List Slot)
    → P s
    → All P rows
    → All P (insert_slot s rows)
unfolding insert_slot
All-insert_slot P s [] p h = (p, tt)
All-insert_slot P s (s' ∷ rows) p h = elim (Bool-cases (leb_ℤ s.slot_id s'.slot_id)) [
  | inl y ↦ rw y (p, h)
  | inr n ↦ rw n (h.0, All-insert_slot P s rows p h.1)
]

pub All-ordered_slots :
    (P : Slot → Type 0) (rows : List Slot) → All P rows → All P (ordered_slots rows)
unfolding ordered_slots
All-ordered_slots P [] h = tt
All-ordered_slots P (s ∷ rows) h =
    All-insert_slot P s (ordered_slots rows) h.0 (All-ordered_slots P rows h.1)

All-at_least :
    (a b : ℤ) (rows : List Slot)
    → a ≤ℤ b
    → All (λ s. b ≤ℤ s.slot_id) rows
    → All (λ s. a ≤ℤ s.slot_id) rows
All-at_least a b [] h all = tt
All-at_least a b (s ∷ rows) h all = (omega arith, All-at_least a b rows h all.1)

insert_slot-SlotsAscend :
    (s : Slot) (rows : List Slot) → SlotsAscend rows → SlotsAscend (insert_slot s rows)
unfolding insert_slot
insert_slot-SlotsAscend s [] h = (tt, tt)
insert_slot-SlotsAscend s (s' ∷ rows) h = elim (Bool-cases (leb_ℤ s.slot_id s'.slot_id)) [
  | inl y ↦
      let below : s.slot_id ≤ℤ s'.slot_id = ground (arith, y) in
      rw y ((below, All-at_least s.slot_id s'.slot_id rows below h.0), h)
  | inr n ↦
      let above : s'.slot_id ≤ℤ s.slot_id = ground (arith, n) in
      rw n (
        All-insert_slot (λ x. s'.slot_id ≤ℤ x.slot_id) s rows above h.0,
        insert_slot-SlotsAscend s rows h.1,
      )
]

pub ordered_slots-SlotsAscend : (rows : List Slot) → SlotsAscend (ordered_slots rows)
unfolding ordered_slots
ordered_slots-SlotsAscend [] = tt
ordered_slots-SlotsAscend (s ∷ rows) =
    insert_slot-SlotsAscend s (ordered_slots rows) (ordered_slots-SlotsAscend rows)

shown-at_least :
    (t : Tables) (z : ℤ) (rows : List Slot)
    → All (λ s. IsInt s.slot_id) rows
    → All (λ s. z ≤ℤ s.slot_id) rows
    → All (λ q. z ≤ℤ q.slot_id) (shown t rows)
unfolding shown
shown-at_least t z [] ints all = tt
shown-at_least t z (s ∷ rows) ints all =
    elim (Option-cases (find_where (item_is s.item_id) t.items)) [
      | inl e ↦ rw e (shown-at_least t z rows ints.1 all.1)
      | inr (i, e) ↦
          rw (e, to_int32_of_IsInt s.slot_id ints.0) (all.0, shown-at_least t z rows ints.1 all.1)
    ]

pub shown-Ascends :
    (t : Tables) (rows : List Slot)
    → All (λ s. IsInt s.slot_id) rows
    → SlotsAscend rows
    → Ascends (shown t rows)
unfolding shown
shown-Ascends t [] ints h = tt
shown-Ascends t (s ∷ rows) ints h = elim (Option-cases (find_where (item_is s.item_id) t.items)) [
  | inl e ↦ rw e (shown-Ascends t rows ints.1 h.1)
  | inr (i, e) ↦
      rw (e, to_int32_of_IsInt s.slot_id ints.0)
        (shown-at_least t s.slot_id rows ints.1 h.0, shown-Ascends t rows ints.1 h.1)
]

-- The code of a failure, or 0 with a list; the connection is idle and the tables are as they were.
abbrev pub Lists : List Product → Tables → Bool → ℤ × Option (List Product) → View → Type 0
Lists ps t fk r v = (v ≡ idle t fk) × ((r ≡ (failure, none)) ⊎ (r ≡ (pos 0, some ps)))

products_list-Wp :
    (gives : ℕ → Bool) (t : Tables) (fk : Bool)
    → Wp (products_list gives) (Lists (shown t (ordered_slots t.stock)) t fk) (idle t fk)
unfolding Wp products_list effect
products_list-Wp gives t fk = ground (
  arith,
  map-join_items t (ordered_slots t.stock),
  fill-goes_through gives 0 (join_items product_row t (ordered_slots t.stock)),
)

module _ (e : Sqlite) (laws : IsSqlite e) (d : e.Db) (t : Tables) (fk : Bool) where
  pub products_list-Lists :
      (gives : ℕ → Bool)
      → laws.view d ≡ idle t fk
      → let (r, d') = run e (products_list gives) d in
        Lists (shown t (ordered_slots t.stock)) t fk r (laws.view d')
  products_list-Lists gives h =
      Wp-sound e laws (Lists (shown t (ordered_slots t.stock)) t fk) (products_list gives) d
        (rw h (products_list-Wp gives t fk))

  -- Whatever the library does within its laws, and whichever allocation fails, on an idle
  -- connection: the list of the stock changes nothing and ends with -1, or with 0 and a list of one
  -- product for each slot whose item is there, with the item's name and price, sorted by the number
  -- of the slot. The numbers of the slots fit an `int`.
  pub products_list_lem :
      (gives : ℕ → Bool)
      → laws.view d ≡ idle t fk
      → All (λ s. IsInt s.slot_id) t.stock
      → let (r, d') = run e (products_list gives) d in
        (laws.view d' ≡ idle t fk)
        × ((r ≡ (failure, none))
            ⊎ ((ps : List Product) × (r ≡ (pos 0, some ps))
                × Perm ps (shown t t.stock)
                × Ascends ps))
  products_list_lem gives h ints =
      let (same, ends) = products_list-Lists gives h in
      let rows = ordered_slots t.stock in
      (
        same,
        elim ends [
          | inl fails ↦ inl fails
          | inr gives ↦ inr (
            shown t rows,
            gives,
            shown-ordered_slots t t.stock,
            shown-Ascends t rows (All-ordered_slots (λ s. IsInt s.slot_id) t.stock ints)
                (ordered_slots-SlotsAscend t.stock),
          )
        ],
      )
