-- ===== src/App/Cursor.antt =====
-- The cursor of tui/src/app.c over the slots, ten to a row.
pub mod Laws
pub mod Fuel
use sshnack.Base.{
  ℕ, ◌+◌, ◌-◌, ◌/◌, ◌%◌, ◌^◌, ◌==◌, Bool, Option, none, some, List, [], ◌∷◌, if◌then◌else◌, length,
  ◌&&◌, get_elem?,
}
use sshnack.Base.Int.{ℤ, pos, negsuc, neg_ℤ, ◌+ℤ◌, ◌-ℤ◌, ltb_ℤ, leb_ℤ, eqb_ℤ}
use sshnack.App.{Product, App}

abbrev pub app_slot_row : ℤ → ℤ
app_slot_row (pos n) = pos (n / 10)
app_slot_row (negsuc n) = neg_ℤ (pos ((n + 1) / 10))

abbrev pub app_slot_col : ℤ → ℤ
app_slot_col (pos n) = pos (n % 10)
app_slot_col (negsuc n) = neg_ℤ (pos ((n + 1) % 10))

-- To the left and to the right of `i` among `count` products, around the ends.
abbrev pub left_of : ℕ → ℕ → ℕ
left_of i ℕ.zero = i
left_of i (ℕ.suc n) = (i + ℕ.suc n - 1) % ℕ.suc n

abbrev pub right_of : ℕ → ℕ → ℕ
right_of i ℕ.zero = i
right_of i (ℕ.suc n) = (i + 1 + ℕ.suc n) % ℕ.suc n

abbrev pub move_left : App → App
move_left a = record a { selected = left_of a.selected (length a.products) }

abbrev pub move_right : App → App
move_right a = record a { selected = right_of a.selected (length a.products) }

abbrev pub col_dist : ℤ → ℤ → ℤ
col_dist c desired_col = if ltb_ℤ desired_col c then c -ℤ desired_col else desired_col -ℤ c

-- The loop of `find_in_row` from the index `i` on.
unfoldable pub find_from : ℤ → ℤ → ℕ → Option ℕ → ℤ → List Product → Option ℕ
find_from target_row desired_col i best best_dist [] = best
find_from target_row desired_col i best best_dist (p ∷ ps) =
    let d = col_dist (app_slot_col p.slot_id) desired_col in
    let closer = eqb_ℤ (app_slot_row p.slot_id) target_row && ltb_ℤ d best_dist in
    find_from target_row desired_col (i + 1) (if closer then some i else best)
      (if closer then d else best_dist) ps

unfoldable pub find_in_row : List Product → ℤ → ℤ → Option ℕ
unfolding find_from
find_in_row products target_row desired_col =
    find_from target_row desired_col 0 none (pos (2 ^ 31 - 1)) products

-- The least and the greatest row, from those that are known.
unfoldable pub min_row : ℤ → List Product → ℤ
min_row m [] = m
min_row m (p ∷ ps) =
    min_row (if ltb_ℤ (app_slot_row p.slot_id) m then app_slot_row p.slot_id else m) ps

unfoldable pub max_row : ℤ → List Product → ℤ
max_row m [] = m
max_row m (p ∷ ps) =
    max_row (if ltb_ℤ m (app_slot_row p.slot_id) then app_slot_row p.slot_id else m) ps

-- The loop `while (target >= minr && target <= maxr)`, with fuel for its rounds and the test that ends
-- it: `none` where the fuel runs out before the loop ends, and otherwise `some` of what it has found.
unfoldable pub seek_row : ℕ → List Product → ℤ → ℤ → ℤ → ℤ → ℤ → Option (Option ℕ)
unfolding find_in_row
seek_row ℕ.zero products minr maxr col dir target = none
seek_row (ℕ.suc fuel) products minr maxr col dir target =
    let further = seek_row fuel products minr maxr col dir (target +ℤ dir) in
    if leb_ℤ minr target && leb_ℤ target maxr
    then elim (find_in_row products target col) [ some i ↦ some (some i) | none ↦ further ]
    else some none

-- The number of rows, from the difference of the greatest and the least.
abbrev pub rounds : ℤ → ℕ
rounds (pos n) = n + 1
rounds (negsuc n) = 0

-- The second loop, where the first has ended without a find.
abbrev pub seek_again : Option (Option ℕ) → Option (Option ℕ) → Option (Option ℕ)
seek_again none again = none
seek_again (some none) again = again
seek_again (some (some i)) again = some (some i)

-- The two searches of `move_vertical`.
unfoldable pub vertical_target : List Product → ℤ → ℤ → Option (Option ℕ)
unfolding seek_row min_row max_row
vertical_target products slot_id dir =
    let r = app_slot_row slot_id in
    let c = app_slot_col slot_id in
    let minr = min_row (pos (2 ^ 31 - 1)) products in
    let maxr = max_row (negsuc (2 ^ 31 - 1)) products in
    let fuel = ℕ.suc (rounds (maxr -ℤ minr)) in
    let start = if ltb_ℤ (pos 0) dir then minr else maxr in
    seek_again (seek_row fuel products minr maxr c dir (r +ℤ dir))
      (seek_row fuel products minr maxr c dir start)

-- A search that does not end stands for no move.
abbrev pub or_stay : ℕ → Option (Option ℕ) → ℕ
or_stay i none = i
or_stay i (some none) = i
or_stay i (some (some j)) = j

unfoldable pub vertical_of : ℤ → List Product → ℕ → ℕ
unfolding vertical_target
vertical_of dir products i = elim (get_elem? products i) [
  | none ↦ i
  | some p ↦ or_stay i (vertical_target products p.slot_id dir)
]

abbrev pub move_vertical : ℤ → App → App
move_vertical dir a = record a { selected = vertical_of dir a.products a.selected }
