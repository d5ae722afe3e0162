-- ===== src/App/Cursor/Laws.antt =====
-- The cursor stays on a product.
use sshnack.Base.{
  ◌^◌, ◌-◌, ℕ, ◌≡◌, ◌+◌, ◌%◌, Bool, true, false, if◌then◌else◌, ◌<◌, ◌≤◌, ◌⊎◌, inl, inr, Option,
  none, some, List, [], ◌∷◌, arith, length, Option-cases, get_elem?,
}
use sshnack.Base.Int.{ℤ, ◌+ℤ◌, ◌-ℤ◌, pos, negsuc, ltb_ℤ}
use sshnack.App.{Product}
use sshnack.App.Cursor.{
  left_of, right_of, or_stay, vertical_of, find_from, find_in_row, seek_row, vertical_target,
  seek_again, app_slot_row, app_slot_col, min_row, max_row, rounds,
}

-- A place in a list of `n`, or none.
abbrev pub Within : ℕ → Option ℕ → Type 0
Within n none = Unit
Within n (some i) = i < n

-- A search that finds a place in a list of `n`, or none, if it ends.
abbrev pub FindsWithin : ℕ → Option (Option ℕ) → Type 0
FindsWithin n none = Unit
FindsWithin n (some found) = Within n found

pick-Within :
    (n i : ℕ) (closer : Bool) (best : Option ℕ)
    → i < n
    → Within n best
    → Within n (if closer then some i else best)
pick-Within n i true best p h = p
pick-Within n i false best p h = h

find_from-Within :
    (n : ℕ) (row col : ℤ) (i : ℕ) (best : Option ℕ) (dist : ℤ) (ps : List Product)
    → i + length ps ≤ n
    → Within n best
    → Within n (find_from row col i best dist ps)
unfolding find_from
find_from-Within n row col i best dist [] b h = h
find_from-Within n row col i best dist (p ∷ ps) b h =
    find_from-Within n row col (i + 1) _ _ ps (omega arith) (pick-Within n i _ best (omega arith) h)

find_in_row-Within : (ps : List Product) (row col : ℤ) → Within (length ps) (find_in_row ps row col)
unfolding find_in_row
find_in_row-Within ps row col = find_from-Within (length ps) row col 0 none _ ps (omega arith) tt

seek_row-FindsWithin :
    (fuel : ℕ) (ps : List Product) (minr maxr col dir target : ℤ)
    → FindsWithin (length ps) (seek_row fuel ps minr maxr col dir target)
unfolding seek_row
seek_row-FindsWithin ℕ.zero ps minr maxr col dir target = tt
seek_row-FindsWithin (ℕ.suc fuel) ps minr maxr col dir target = ground (
  arith,
  find_in_row-Within ps target col,
  seek_row-FindsWithin fuel ps minr maxr col dir (target +ℤ dir),
)

seek_again-FindsWithin :
    (n : ℕ) (x y : Option (Option ℕ))
    → FindsWithin n x
    → FindsWithin n y
    → FindsWithin n (seek_again x y)
seek_again-FindsWithin n none y h k = tt
seek_again-FindsWithin n (some none) y h k = k
seek_again-FindsWithin n (some (some i)) y h k = h

pub vertical_target-FindsWithin :
    (ps : List Product) (slot_id dir : ℤ) → FindsWithin (length ps) (vertical_target ps slot_id dir)
unfolding vertical_target
vertical_target-FindsWithin ps slot_id dir =
    let c = app_slot_col slot_id in
    let minr = min_row (pos (2 ^ 31 - 1)) ps in
    let maxr = max_row (negsuc (2 ^ 31 - 1)) ps in
    let fuel = ℕ.suc (rounds (maxr -ℤ minr)) in
    let first = app_slot_row slot_id +ℤ dir in
    let start = if ltb_ℤ (pos 0) dir then minr else maxr in
    seek_again-FindsWithin (length ps) (seek_row fuel ps minr maxr c dir first)
      (seek_row fuel ps minr maxr c dir start) (seek_row-FindsWithin fuel ps minr maxr c dir first)
      (seek_row-FindsWithin fuel ps minr maxr c dir start)

-- The cursor stands on a product, or at 0 where there are none.
abbrev pub Placed : ℕ → ℕ → Type 0
Placed i n = (i < n) ⊎ (i ≡ 0)

mod_bound : (x n : ℕ) → 0 < n → x % n < n
mod_bound x n h = grind arith

pub left_of-Placed : (i n : ℕ) → Placed i n → Placed (left_of i n) n
left_of-Placed i ℕ.zero h = h
left_of-Placed i (ℕ.suc n) h = inl (mod_bound _ (ℕ.suc n) (omega arith))

pub right_of-Placed : (i n : ℕ) → Placed i n → Placed (right_of i n) n
right_of-Placed i ℕ.zero h = h
right_of-Placed i (ℕ.suc n) h = inl (mod_bound _ (ℕ.suc n) (omega arith))

or_stay-Placed :
    (i n : ℕ) (o : Option (Option ℕ)) → FindsWithin n o → Placed i n → Placed (or_stay i o) n
or_stay-Placed i n none w h = h
or_stay-Placed i n (some none) w h = h
or_stay-Placed i n (some (some j)) w h = inl w

pub vertical_of-Placed :
    (dir : ℤ) (ps : List Product) (i : ℕ)
    → Placed i (length ps)
    → Placed (vertical_of dir ps i) (length ps)
unfolding vertical_of
vertical_of-Placed dir ps i h = elim (Option-cases (get_elem? ps i)) [
  | inl e ↦ rw (e, vertical_of) h
  | inr (p, e) ↦
      rw (e, vertical_of)
        (or_stay-Placed i (length ps) (vertical_target ps p.slot_id dir)
          (vertical_target-FindsWithin ps p.slot_id dir) h)
]
