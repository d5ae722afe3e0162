-- ===== src/Services/Products/Listing/Length.antt =====
-- How many rows the select of `products_list` gives.
use sshnack.Base.{◌+◌, ◌≡◌, ◌≤◌, refl, List, [], ◌∷◌, arith, inl, inr, Option-cases, length}
use sshnack.Tables.{Tables, Slot, find_where, item_is}
use sshnack.Tables.Statements.{insert_slot, ordered_slots, join_items, product_row}
use sshnack.Services.Products.Listing.Laws.{shown}

length-insert_slot : (s : Slot) (rows : List Slot) → length (insert_slot s rows) ≡ 1 + length rows
unfolding insert_slot
length-insert_slot s [] = refl
length-insert_slot s (s' ∷ rows) = ground (arith, length-insert_slot s rows)

pub length-ordered_slots : (rows : List Slot) → length (ordered_slots rows) ≡ length rows
unfolding ordered_slots
length-ordered_slots [] = refl
length-ordered_slots (s ∷ rows) =
    omega (arith, length-insert_slot s (ordered_slots rows), length-ordered_slots rows)

pub length-shown : (t : Tables) (rows : List Slot) → length (shown t rows) ≤ length rows
unfolding shown
length-shown t [] = omega arith
length-shown t (s ∷ rows) = elim (Option-cases (find_where (item_is s.item_id) t.items)) [
  | inl e ↦ rw e (omega (arith, length-shown t rows))
  | inr (i, e) ↦ rw e (omega (arith, length-shown t rows))
]

pub length-join_items :
    (t : Tables) (rows : List Slot) → length (join_items product_row t rows) ≤ length rows
unfolding join_items
length-join_items t [] = omega arith
length-join_items t (s ∷ rows) = elim (Option-cases (find_where (item_is s.item_id) t.items)) [
  | inl e ↦ rw e (omega (arith, length-join_items t rows))
  | inr (i, e) ↦ rw e (omega (arith, length-join_items t rows))
]
