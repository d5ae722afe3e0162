-- ===== src/Ui.antt =====
-- tui/src/ui.c: where `ui_render` puts the slots on the screen, as a list of marks; the rest of what it
-- draws is in Screen. What ncurses does with a mark is not modelled; a text is as wide as it has bytes.
-- The screen has `lines` rows and `cols` columns.
pub mod Cell
pub mod Laws
pub mod Placed
pub mod Screen
mod Tests
use sshnack.Base.{
  ℕ, ◌+◌, ◌*◌, ◌-◌, ◌/◌, ◌^◌, ◌==◌, Bool, List, [], ◌∷◌, ◌++◌, if◌then◌else◌, length, ltb, ◌||◌,
}
use sshnack.Base.Int.{ℤ, pos, neg_ℤ, ◌-ℤ◌, ltb_ℤ, pos_part}
use sshnack.Base.Text.{Text, codes}
use sshnack.App.{Product}
use sshnack.App.Cursor.{app_slot_row, app_slot_col}
use sshnack.Ui.Cell.{Mark, plain, draw_cell, at}

-- `draw_centered`. A text wider than the screen begins in column 0.
abbrev pub centered : ℕ → Text → ℕ
centered cols s = (cols - length s) / 2

abbrev pub draw_centered : ℕ → ℕ → Text → Mark
draw_centered cols row s = at row (centered cols s) plain s

-- The loop over the products that finds the least and the greatest row or column.
unfoldable pub least : (Product → ℤ) → ℤ → List Product → ℤ
least f m [] = m
least f m (p ∷ ps) = least f (if ltb_ℤ (f p) m then f p else m) ps

unfoldable pub greatest : (Product → ℤ) → ℤ → List Product → ℤ
greatest f m [] = m
greatest f m (p ∷ ps) = greatest f (if ltb_ℤ m (f p) then f p else m) ps

abbrev pub row_of : Product → ℤ
row_of p = app_slot_row p.slot_id

abbrev pub col_of : Product → ℤ
col_of p = app_slot_col p.slot_id

-- `a - b` for an `a` that is not less.
abbrev pub above : ℤ → ℤ → ℕ
above a b = pos_part (a -ℤ b)

-- `minr`, `minc`, `rows` and `colsn`.
pub record Grid : Type 0 where
  pub minr : ℤ
  pub minc : ℤ
  pub rows : ℕ
  pub colsn : ℕ

unfoldable pub grid_of : List Product → Grid
unfolding least greatest
grid_of ps =
    let minr = least row_of (pos (2 ^ 30)) ps in
    let minc = least col_of (pos (2 ^ 30)) ps in
    record {
      minr = minr;
      minc = minc;
      rows = above (greatest row_of (neg_ℤ (pos (2 ^ 30))) ps) minr + 1;
      colsn = above (greatest col_of (neg_ℤ (pos (2 ^ 30))) ps) minc + 1;
    }

abbrev pub grid_w : Grid → ℕ
grid_w g = g.colsn * 10 + (g.colsn - 1) * 1

abbrev pub grid_h : Grid → ℕ
grid_h g = g.rows * 5

-- The corner of a product's cell, for a grid that fits: the title has 3 rows, and 4 rows are below.
unfoldable pub cell_x : ℕ → Grid → Product → ℕ
cell_x cols g p = (cols - grid_w g) / 2 + above (col_of p) g.minc * (10 + 1)

unfoldable pub cell_y : ℕ → Grid → Product → ℕ
cell_y lines g p = 3 + (lines - 7 - grid_h g) / 2 + above (row_of p) g.minr * 5

-- The loop over the products; `i` is the index of the first of these.
unfoldable pub draw_cells : ℕ → ℕ → Grid → ℕ → ℤ → ℕ → List Product → List Mark
unfolding cell_x cell_y
draw_cells lines cols g selected balance i [] = []
draw_cells lines cols g selected balance i (p ∷ ps) =
    draw_cell (cell_y lines g p) (cell_x cols g p) p (i == selected) balance
    ++ draw_cells lines cols g selected balance (i + 1) ps

-- The part of `ui_render` between the title and the rows at the bottom. `LINES - 7` rows are left for
-- the grid, and none of them where the screen has fewer.
unfoldable pub draw_grid : ℕ → ℕ → List Product → ℕ → ℤ → List Mark
unfolding grid_of draw_cells
draw_grid lines cols [] selected balance =
    draw_centered cols (lines / 2) (codes "Machine empty") ∷ []
draw_grid lines cols (p ∷ ps) selected balance =
    let g = grid_of (p ∷ ps) in
    if ltb cols (grid_w g) || ltb lines (grid_h g + 7)
    then draw_centered cols (lines / 2) (codes "Terminal too small") ∷ []
    else draw_cells lines cols g selected balance 0 (p ∷ ps)
