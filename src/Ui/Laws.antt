-- ===== src/Ui/Laws.antt =====
-- The cells are within the screen, and apart from each other.
use sshnack.Base.{
  ◌*◌, ◌==◌, ◌||◌, false, ltb, inl, inr, some, get_elem?, ℕ, ◌+◌, ◌≤◌, ◌≡◌, ◌≢◌, ◌⊎◌, arith, Bool,
  List, [], ◌∷◌, ◌++◌, length, length-append, length-take, All,
}
use sshnack.Base.Int.{ℤ}
use sshnack.Base.Text.{Text, codes}
use sshnack.App.{Product}
use sshnack.Ui.{
  Grid, grid_of, grid_w, grid_h, row_of, col_of, cell_x, cell_y, draw_cells, draw_grid,
}
use sshnack.Ui.Placed.{Placed, above_apart, grid_of-Placed, All-map, All-get_elem?}
use sshnack.Ui.Cell.{Mark, field, draw_box, draw_cell, slot_text, price_text, stock_text}

-- A mark within a part of the screen, from a corner on.
abbrev pub Within : ℕ → ℕ → ℕ → ℕ → Mark → Type 0
Within y x h w m = (y ≤ m.y) × (m.y + m.h ≤ y + h) × (x ≤ m.x) × (m.x + m.w ≤ x + w)

pub All-append :
    {A : Type 0} (P : A → Type 0) (xs ys : List A) → All P xs → All P ys → All P (xs ++ ys)
All-append P [] ys h k = k
All-append P (x ∷ xs) ys h k = (h.0, All-append P xs ys h.1 k)

length-field_8 : (s : Text) → length (field 8 s) ≡ 8
unfolding field
length-field_8 s =
    let blank : Text = codes "        " in
    omega (arith, length-take 8 (s ++ blank), length-append s blank)

-- A cell stays within its 5 rows and 10 columns.
draw_cell-Within :
    (y x : ℕ) (p : Product) (selected : Bool) (balance : ℤ)
    → All (Within y x 5 10) (draw_cell y x p selected balance)
unfolding draw_cell draw_box
draw_cell-Within y x p selected balance = ground (
  arith,
  length-field_8 (slot_text p),
  length-field_8 (price_text p),
  length-field_8 (stock_text p),
)

-- The cells of two products, of 5 rows and 10 columns, have no place in common.
abbrev pub Apart : ℕ → ℕ → Grid → Product → Product → Type 0
Apart lines cols g q r =
    (cell_y lines g q + 5 ≤ cell_y lines g r)
    ⊎ (cell_y lines g r + 5 ≤ cell_y lines g q)
    ⊎ (cell_x cols g q + 10 ≤ cell_x cols g r)
    ⊎ (cell_x cols g r + 10 ≤ cell_x cols g q)

cells-Apart :
    (lines cols : ℕ) (g : Grid) (q r : Product)
    → Placed g q
    → Placed g r
    → (row_of q ≢ row_of r) ⊎ (col_of q ≢ col_of r)
    → Apart lines cols g q r
unfolding cell_y cell_x
cells-Apart lines cols g q r hq hr (inl rows) =
    elim (above_apart (row_of q) (row_of r) g.minr hq.0 hr.0 rows) [
      | inl less ↦ inl (omega (arith, less))
      | inr more ↦ inr (inl (omega (arith, more)))
    ]
cells-Apart lines cols g q r hq hr (inr columns) =
    elim (above_apart (col_of q) (col_of r) g.minc hq.2 hr.2 columns) [
      | inl less ↦ inr (inr (inl (omega (arith, less))))
      | inr more ↦ inr (inr (inr (omega (arith, more))))
    ]

length-draw_cell :
    (y x : ℕ) (p : Product) (selected : Bool) (balance : ℤ)
    → length (draw_cell y x p selected balance) ≡ 11
unfolding draw_cell draw_box
length-draw_cell y x p selected balance = ground arith

length-draw_cells :
    (lines cols : ℕ) (g : Grid) (selected : ℕ) (balance : ℤ) (i : ℕ) (ps : List Product)
    → length (draw_cells lines cols g selected balance i ps) ≡ 11 * length ps
unfolding draw_cells
length-draw_cells lines cols g selected balance i [] = omega arith
length-draw_cells lines cols g selected balance i (p ∷ ps) =
    let cell = draw_cell (cell_y lines g p) (cell_x cols g p) p (i == selected) balance in
    let more = draw_cells lines cols g selected balance (i + 1) ps in
    omega (
      arith,
      length-append cell more,
      length-draw_cell (cell_y lines g p) (cell_x cols g p) p (i == selected) balance,
      length-draw_cells lines cols g selected balance (i + 1) ps,
    )

module _ (lines cols : ℕ) where
  -- Below the title, above the four rows at the bottom, and not beyond the last column.
  abbrev pub Inside : Mark → Type 0
  Inside m = (3 ≤ m.y) × (m.y + m.h + 4 ≤ lines) × (m.x + m.w ≤ cols)

  cell_fits :
      (g : Grid) (p : Product)
      → Placed g p
      → grid_w g ≤ cols
      → grid_h g + 7 ≤ lines
      → (3 ≤ cell_y lines g p) × (cell_y lines g p + 9 ≤ lines) × (cell_x cols g p + 10 ≤ cols)
  unfolding cell_y cell_x
  cell_fits g p h wide high = (omega arith, omega (arith, h.1, high), omega (arith, h.3, wide))

  draw_cells-Inside :
      (g : Grid) (selected : ℕ) (balance : ℤ) (i : ℕ) (ps : List Product)
      → All (Placed g) ps
      → grid_w g ≤ cols
      → grid_h g + 7 ≤ lines
      → All Inside (draw_cells lines cols g selected balance i ps)
  unfolding draw_cells
  draw_cells-Inside g selected balance i [] h wide high = tt
  draw_cells-Inside g selected balance i (p ∷ ps) h wide high =
      let y = cell_y lines g p in
      let x = cell_x cols g p in
      let fits = cell_fits g p h.0 wide high in
      All-append Inside (draw_cell y x p (i == selected) balance) _
        (All-map (Within y x 5 10) Inside _
          (λ m w. (omega (arith, w, fits), omega (arith, w, fits), omega (arith, w, fits)))
          (draw_cell-Within y x p (i == selected) balance))
        (draw_cells-Inside g selected balance (i + 1) ps h.1 wide high)

  -- Where the grid of the slots fits the screen, every product is drawn, by 11 calls of ncurses; all
  -- that they draw is between the title and the
  -- four rows at the bottom, and within the columns of the screen; and the cells of two products whose
  -- slots are in different rows or columns do not overlap.
  pub draw_grid-Inside :
      (p : Product) (ps : List Product) (selected : ℕ) (balance : ℤ)
      → grid_w (grid_of (p ∷ ps)) ≤ cols
      → grid_h (grid_of (p ∷ ps)) + 7 ≤ lines
      → All Inside (draw_grid lines cols (p ∷ ps) selected balance)
        × (length (draw_grid lines cols (p ∷ ps) selected balance) ≡ 11 * length (p ∷ ps))
        × ((i j : ℕ) (q r : Product)
            → get_elem? (p ∷ ps) i ≡ some q
            → get_elem? (p ∷ ps) j ≡ some r
            → (row_of q ≢ row_of r) ⊎ (col_of q ≢ col_of r)
            → Apart lines cols (grid_of (p ∷ ps)) q r)
  unfolding draw_grid
  draw_grid-Inside p ps selected balance wide high =
      let g = grid_of (p ∷ ps) in
      let placed = grid_of-Placed (p ∷ ps) in
      let fits : (ltb cols (grid_w g) || ltb lines (grid_h g + 7)) ≡ false = ground arith in
      (
        rw fits (draw_cells-Inside g selected balance 0 (p ∷ ps) placed wide high),
        rw fits (length-draw_cells lines cols g selected balance 0 (p ∷ ps)),
        λ i j q r at_i at_j differ.
            cells-Apart lines cols g q r (All-get_elem? (Placed g) (p ∷ ps) i q placed at_i)
              (All-get_elem? (Placed g) (p ∷ ps) j r placed at_j) differ,
      )
