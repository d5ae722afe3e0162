-- ===== src/Services/Products/Listing/Success.antt =====
-- `products_list` where no call and no allocation fails.
use sshnack.Base.{ℕ, length, ◌≤◌, ◌^◌, ◌+◌, ◌≡◌, refl, Bool, true, some, List, [], ◌∷◌, arith}
use sshnack.Base.Int.{pos}
use sshnack.Tables.{Tables}
use sshnack.Tables.Statements.{Row, effect, join_items, product_row, ordered_slots}
use sshnack.Sqlite.{run, goes_through}
use sshnack.Sqlite.Faulty.{faulty, calm, faulty_prepare, faulty_fetch}
use sshnack.Services.Common.{idle}
use sshnack.Services.Products.Listing.{products_list, has_room}
use sshnack.Services.Products.Listing.Array.{has_room_given, fill-goes_through}
use sshnack.Services.Products.Listing.Length.{length-join_items, length-ordered_slots}
use sshnack.Services.Products.Listing.Laws.{shown, map-join_items}

goes_through_all :
    (n : ℕ) (rows : List Row)
    → n + length rows ≤ 2 ^ 30
    → goes_through (has_room (λ _. true)) n rows ≡ true
unfolding goes_through
goes_through_all n [] few = refl
goes_through_all n (r ∷ rows) few =
    rw (has_room_given n (omega arith)) (goes_through_all (n + 1) rows (omega arith))

-- Where no call and no allocation fails and there are at most 2 ^ 30 slots, the list of the stock is
-- the products of all slots whose item is there, sorted by the number of the slot, with code 0; no
-- row is written past the array. Of each number of the tables a product has the low 32 bits, and of
-- each name the first 49 bytes.
pub products_list_succeeds :
    (t : Tables) (fk : Bool)
    → length t.stock ≤ 2 ^ 30
    → run faulty (products_list (λ _. true)) (calm (idle t fk))
      ≡ ((pos 0, some (shown t (ordered_slots t.stock))), calm (idle t fk))
unfolding run faulty_prepare faulty_fetch products_list effect goes_through shown
products_list_succeeds t fk few =
    let rows = join_items product_row t (ordered_slots t.stock) in
    let fits : 0 + length rows ≤ 2 ^ 30 =
      omega (arith, length-join_items t (ordered_slots t.stock), length-ordered_slots t.stock) in
    let all = goes_through_all 0 rows fits in
    rw (all, fill-goes_through (λ _. true) 0 rows all, map-join_items t (ordered_slots t.stock))
      refl
