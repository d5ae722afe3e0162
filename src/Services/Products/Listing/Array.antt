-- ===== src/Services/Products/Listing/Array.antt =====
-- The rows of `products_list` stay in the array that it has allocated for them.
use sshnack.Base.{
  ℕ, ◌+◌, ◌≡◌, ◌≤◌, ◌<◌, ◌^◌, refl, Bool, true, some, List, [], ◌∷◌, arith, map, inl, inr,
  Option-cases,
}
use sshnack.Tables.Statements.{Row}
use sshnack.Sqlite.{goes_through}
use sshnack.Services.Products.Listing.{grow, size_at, has_room, in_array, read_product, fill}

-- The array holds the rows that are in it.
size_at-Holds :
    (gives : ℕ → Bool) (count size : ℕ)
    → size_at gives count ≡ some size
    → (count ≤ size) × (16 ≤ size)
unfolding size_at grow
size_at-Holds gives ℕ.zero size e = ground arith
size_at-Holds gives (ℕ.suc count) size e = elim (Option-cases (size_at gives count)) [
  | inl empty ↦ ground arith
  | inr (before, eb) ↦ ground (arith, size_at-Holds gives count before eb)
]

-- The loop goes on with a row only where the array has a place for it.
has_room-in_array :
    (gives : ℕ → Bool) (count : ℕ)
    → has_room gives count ≡ true
    → in_array (size_at gives (ℕ.suc count)) count ≡ true
unfolding has_room
has_room-in_array gives count h = elim (Option-cases (size_at gives (ℕ.suc count))) [
  | inl e ↦ ground arith
  | inr (size, e) ↦ rw e (ground (arith, size_at-Holds gives (ℕ.suc count) size e))
]

-- Where the loop goes through all rows, each of them is written inside of the array.
pub fill-goes_through :
    (gives : ℕ → Bool) (count : ℕ) (rows : List Row)
    → goes_through (has_room gives) count rows ≡ true
    → fill gives count rows ≡ some (map read_product rows)
unfolding goes_through fill
fill-goes_through gives count [] h = refl
fill-goes_through gives count (r ∷ rows) h =
    let (here, onward) : (has_room gives count ≡ true)
        × (goes_through (has_room gives) (count + 1) rows ≡ true) =
      ground arith in
    rw (has_room-in_array gives count here, fill-goes_through gives (count + 1) rows onward) refl

-- Where every allocation is given, the array grows with 2 ^ 30 rows.
pub has_room_given : (count : ℕ) → count < 2 ^ 30 → has_room (λ _. true) count ≡ true
unfolding has_room size_at grow
has_room_given ℕ.zero h = refl
has_room_given (ℕ.suc count) h = ground (arith, has_room_given count)
