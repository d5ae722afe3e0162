-- ===== src/Services/Products/Listing.antt =====
-- `products_list` of server/src/services/products_service.c. Whether `malloc` and `realloc` give an
-- array of some capacity is a parameter, `gives`.
pub mod Array
pub mod Laws
pub mod Length
pub mod Success
use sshnack.Base.{
  ℕ, ◌+◌, ◌*◌, ◌==◌, Bool, true, Option, none, some, List, [], ◌∷◌, if◌then◌else◌, not, take, map,
  false, ltb, ◌^◌, ◌&&◌,
}
use sshnack.Base.Int.{ℤ, pos}
use sshnack.Tables.Statements.{Row, select_products}
use sshnack.Sqlite.{
  Prog, ret, ◌>>=◌, ◌>>◌, sqlite_prepare, sqlite_fetch, sqlite_finalize, all_rows, broken, left,
  column_int, column_text,
}
use sshnack.Services.Common.{failure}
use sshnack.Services.Products.{Product}

-- `if (count == capacity) { capacity *= 2; realloc … }`: the size of the array for the next row, or
-- `none` where `realloc` gives nothing. A capacity that is doubled beyond an `int` turns negative, and
-- as the `size_t` of `realloc` it is more than any object has.
unfoldable pub grow : (ℕ → Bool) → ℕ → ℕ → Option ℕ
grow gives count size =
    if count == size
    then (if ltb (size * 2) (2 ^ 31) && gives (size * 2) then some (size * 2) else none)
    else some size

-- The size of the array when `count` rows are in it, or `none` when the loop has been left.
unfoldable pub size_at : (ℕ → Bool) → ℕ → Option ℕ
unfolding grow
size_at gives ℕ.zero = some 16
size_at gives (ℕ.suc count) = elim (size_at gives count) [
  | none ↦ none
  | some size ↦ grow gives count size
]

-- Whether the loop goes on with a row when `count` rows are in the array.
unfoldable pub has_room : (ℕ → Bool) → ℕ → Bool
unfolding size_at
has_room gives count = elim (size_at gives (ℕ.suc count)) [ none ↦ false | some size ↦ true ]

-- Whether `products[count]` lies in an array of this size.
abbrev pub in_array : Option ℕ → ℕ → Bool
in_array none count = false
in_array (some size) count = ltb count size

-- A row of the array.
unfoldable pub read_product : Row → Product
unfolding column_int column_text
read_product columns = record {
  slot_id = column_int columns 0;
  item_id = column_int columns 1;
  name = take 49 (column_text columns 2);
  price_gr = column_int columns 3;
  stock_qty = column_int columns 4;
}

abbrev pub with_row : Product → Option (List Product) → Option (List Product)
with_row p none = none
with_row p (some ps) = some (p ∷ ps)

-- The rows as they are written to the array, each while it has the size of its round, `count` rows
-- being in it before: `none` where a row is written past the end.
unfoldable pub fill : (ℕ → Bool) → ℕ → List Row → Option (List Product)
unfolding size_at read_product
fill gives count [] = some []
fill gives count (r ∷ rows) =
    let more = fill gives (count + 1) rows in
    if in_array (size_at gives (ℕ.suc count)) count then with_row (read_product r) more else none

-- The code, with `*out` and `*out_count` where it is 0; a 0 without a list stands for an array that
-- is written past its end.
unfoldable pub products_list : (ℕ → Bool) → Prog (ℤ × Option (List Product))
unfolding has_room fill
products_list gives = do
  let sql = select_products
  ok ← sqlite_prepare sql
  if not ok
      then ret (failure, none)
      else if not (gives 16)
      then sqlite_finalize >> ret (failure, none)
      else do
        rc ← sqlite_fetch sql (has_room gives)
        sqlite_finalize
        elim rc [
          | left ↦ ret (failure, none)
          | broken ↦ ret (failure, none)
          | all_rows rows ↦ ret (pos 0, fill gives 0 rows)
        ]
