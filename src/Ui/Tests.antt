-- ===== src/Ui/Tests.antt =====
-- Two slots on a screen of 24 rows and 80 columns.
use sshnack.Base.{
  ℕ, ◌+◌, ◌*◌, ◌≡◌, ◌≢◌, ◌≤◌, ◌⊎◌, refl, some, [], ◌∷◌, arith, All, length, get_elem?,
}
use sshnack.Base.Int.{pos, ◌-ℤ◌}
use sshnack.Base.Text.{codes}
use sshnack.App.{Product}
use sshnack.Ui.{grid_of, grid_w, grid_h, row_of, col_of, cell_x, cell_y, draw_grid, least, greatest}
use sshnack.Ui.Laws.{Inside, Apart, draw_grid-Inside}

abbrev cola : Product
cola = record {
  slot_id = pos 11;
  item_id = pos 1;
  price_gr = pos 500;
  stock_qty = pos 2;
  name = codes "Cola";
}

abbrev water : Product
water = record {
  slot_id = pos 23;
  item_id = pos 2;
  price_gr = pos 250;
  stock_qty = pos 0;
  name = codes "Water";
}

corner_of_water :
    let g = grid_of (cola ∷ water ∷ []) in (cell_y 24 g water ≡ 11) × (cell_x 80 g water ≡ 46)
unfolding grid_of least greatest cell_x cell_y ◌-ℤ◌
corner_of_water = (refl, refl)

fits_across : grid_w (grid_of (cola ∷ water ∷ [])) ≤ 80
unfolding grid_of least greatest ◌-ℤ◌
fits_across = omega arith

fits_down : grid_h (grid_of (cola ∷ water ∷ [])) + 7 ≤ 24
unfolding grid_of least greatest ◌-ℤ◌
fits_down = omega arith

draw_grid-Inside_example :
    All (Inside 24 80) (draw_grid 24 80 (cola ∷ water ∷ []) 0 (pos 300))
    × (length (draw_grid 24 80 (cola ∷ water ∷ []) 0 (pos 300)) ≡ 11 * 2)
    × ((i j : ℕ) (q r : Product)
        → get_elem? (cola ∷ water ∷ []) i ≡ some q
        → get_elem? (cola ∷ water ∷ []) j ≡ some r
        → (row_of q ≢ row_of r) ⊎ (col_of q ≢ col_of r)
        → Apart 24 80 (grid_of (cola ∷ water ∷ [])) q r)
draw_grid-Inside_example =
    draw_grid-Inside 24 80 cola (water ∷ []) 0 (pos 300) fits_across fits_down
