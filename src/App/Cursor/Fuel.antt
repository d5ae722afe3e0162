-- ===== src/App/Cursor/Fuel.antt =====
-- The searches of an occupied row end.
use sshnack.Base.{
  if◌then◌else◌, some, Option, ◌&&◌, ℕ, ◌≡◌, ◌^◌, ◌-◌, refl, none, List, arith, inl, inr, ◌⊎◌,
  Bool-cases, Option-cases, length,
}
use sshnack.Base.Int.{ℤ, -ℤ_parts, pos, negsuc, ◌+ℤ◌, ◌-ℤ◌, ◌<ℤ◌, ◌≤ℤ◌, int_laws, leb_ℤ, ltb_ℤ}
use sshnack.App.{Product}
use sshnack.App.Cursor.{
  find_in_row, seek_row, rounds, vertical_target, seek_again, min_row, max_row, app_slot_row,
  app_slot_col,
}
use sshnack.App.Cursor.Laws.{Within, vertical_target-FindsWithin}

-- The search ends before its fuel does.
abbrev Ends : Option (Option ℕ) → Type 0
Ends o = (found : Option ℕ) × (o ≡ some found)

module _ (ps : List Product) (minr maxr col : ℤ) where
  -- A round of the loop ends it, or the rounds after it do.
  seek_row-Ends :
      (fuel : ℕ) (dir target : ℤ)
      → (minr ≤ℤ target
          → target ≤ℤ maxr
          → Ends (seek_row fuel ps minr maxr col dir (target +ℤ dir)))
      → Ends (seek_row (ℕ.suc fuel) ps minr maxr col dir target)
  unfolding seek_row
  seek_row-Ends fuel dir target onward =
      elim (Bool-cases (leb_ℤ minr target && leb_ℤ target maxr)) [
        | inr out ↦ rw out (none, refl)
        | inl inside ↦ elim (Option-cases (find_in_row ps target col)) [
          | inl e ↦ rw (inside, e) (onward (ground (arith, inside)) (ground (arith, inside)))
          | inr (i, e) ↦ rw (inside, e) (some i, refl)
        ]
      ]

  seek_row-Ends_down :
      (fuel : ℕ) (target : ℤ)
      → (minr ≤ℤ target → maxr <ℤ target +ℤ pos fuel)
      → Ends (seek_row (ℕ.suc fuel) ps minr maxr col (pos 1) target)
  seek_row-Ends_down ℕ.zero target h =
      seek_row-Ends 0 (pos 1) target (λ low high. absurd (grind (int_laws, h low)))
  seek_row-Ends_down (ℕ.suc fuel) target h =
      seek_row-Ends (ℕ.suc fuel) (pos 1) target
        (λ low high. seek_row-Ends_down fuel (target +ℤ pos 1) (λ low'. grind (int_laws, h low)))

  seek_row-Ends_up :
      (fuel : ℕ) (target : ℤ)
      → (target ≤ℤ maxr → target <ℤ minr +ℤ pos fuel)
      → Ends (seek_row (ℕ.suc fuel) ps minr maxr col (negsuc 0) target)
  seek_row-Ends_up ℕ.zero target h =
      seek_row-Ends 0 (negsuc 0) target (λ low high. absurd (grind (int_laws, h high)))
  seek_row-Ends_up (ℕ.suc fuel) target h =
      seek_row-Ends (ℕ.suc fuel) (negsuc 0) target
        (λ low high. seek_row-Ends_up fuel (target +ℤ negsuc 0) (λ high'. grind (int_laws, h high)))

-- The number of rounds reaches past the last row.
rounds_past : (low high d : ℤ) → high -ℤ low ≡ d → high <ℤ low +ℤ pos (rounds d)
rounds_past low high (pos n) e = grind (int_laws, -ℤ_parts high low)
rounds_past low high (negsuc n) e = grind (int_laws, -ℤ_parts high low)

-- A search with fuel for every row ends, wherever it starts.
seek_row-Ends_any :
    (ps : List Product) (minr maxr col dir target : ℤ)
    → (dir ≡ pos 1) ⊎ (dir ≡ negsuc 0)
    → Ends (seek_row (ℕ.suc (rounds (maxr -ℤ minr))) ps minr maxr col dir target)
seek_row-Ends_any ps minr maxr col dir target h =
    let past : maxr <ℤ minr +ℤ pos (rounds (maxr -ℤ minr)) =
      rounds_past minr maxr (maxr -ℤ minr) refl in
    elim h [
      | inl down ↦ rw down (seek_row-Ends_down ps minr maxr col _ target (λ low. grind int_laws))
      | inr up ↦ rw up (seek_row-Ends_up ps minr maxr col _ target (λ high. grind int_laws))
    ]

seek_again-Ends : (x y : Option (Option ℕ)) → Ends x → Ends y → Ends (seek_again x y)
seek_again-Ends none y h k = h
seek_again-Ends (some none) y h k = k
seek_again-Ends (some (some i)) y h k = h

vertical_target-Ends :
    (ps : List Product) (slot_id dir : ℤ)
    → (dir ≡ pos 1) ⊎ (dir ≡ negsuc 0)
    → Ends (vertical_target ps slot_id dir)
unfolding vertical_target
vertical_target-Ends ps slot_id dir h =
    let c = app_slot_col slot_id in
    let minr = min_row (pos (2 ^ 31 - 1)) ps in
    let maxr = max_row (negsuc (2 ^ 31 - 1)) ps in
    let fuel = ℕ.suc (rounds (maxr -ℤ minr)) in
    let first = app_slot_row slot_id +ℤ dir in
    let start = if ltb_ℤ (pos 0) dir then minr else maxr in
    seek_again-Ends (seek_row fuel ps minr maxr c dir first)
      (seek_row fuel ps minr maxr c dir start) (seek_row-Ends_any ps minr maxr c dir first h)
      (seek_row-Ends_any ps minr maxr c dir start h)

-- Whatever the products are and wherever the cursor stands, the two loops of `move_vertical` end,
-- downwards and upwards: with a round for each row between the least and the greatest, and the test
-- after the last, neither runs out of fuel; and what they find is a place in the list of the products,
-- or none.
pub vertical_target_ends :
    (ps : List Product) (slot_id dir : ℤ)
    → (dir ≡ pos 1) ⊎ (dir ≡ negsuc 0)
    → (found : Option ℕ) × (vertical_target ps slot_id dir ≡ some found) × Within (length ps) found
vertical_target_ends ps slot_id dir h =
    let (found, e) = vertical_target-Ends ps slot_id dir h in
    (found, e, rw e at (vertical_target-FindsWithin ps slot_id dir))
