-- ===== src/Ui/Screen/Rows.antt =====
-- Each part of the screen within its rows.
use mathlib.Core.Path.{subst}
use sshnack.Base.{
  append-nil, ℕ, ◌+◌, ◌-◌, ◌≤◌, ◌<◌, ◌≡◌, ◌||◌, refl, arith, Bool, true, false, Option, none, some,
  List, [], ◌∷◌, ◌++◌, length, length-take, take, ltb, All, Bool-cases, inl, inr,
}
use sshnack.Base.Int.{ℤ}
use sshnack.Base.Text.{Text, codes}
use sshnack.App.{App, Product, selected_product}
use sshnack.Ui.{centered, draw_grid, grid_of, grid_w, grid_h}
use sshnack.Ui.Cell.{bold, colour, pair_red, pair_g4, pair_g7, Mark, Attr, spaces}
use sshnack.Ui.Laws.{Inside, draw_grid-Inside}
use sshnack.Ui.Screen.{
  draw_title, draw_letters, bottom_rows, draw_message, status_text, detail_text, guide_text,
  admin_row, status_row, detail_row, guide_row, detail_format, from_bottom, draw_centered_colored,
  status_format,
}

-- A mark is on the screen.
abbrev pub OnScreen : ℕ → ℕ → Mark → Type 0
OnScreen lines cols m = (m.y + m.h ≤ lines) × (m.x + m.w ≤ cols)

-- A mark of one row, in the row `y`.
abbrev pub InRow : ℕ → ℕ → Mark → Type 0
InRow cols y m = (m.y ≡ y) × (m.h ≡ 1) × (m.x + m.w ≤ cols)

-- Marks of one row each, in the rows from `y` on, each below the one before.
abbrev pub Rising : ℕ → ℕ → ℕ → List Mark → Type 0
Rising lines cols y [] = Unit
Rising lines cols y (m ∷ ms) =
    (y ≤ m.y) × (m.y < lines) × (m.h ≡ 1) × (m.x + m.w ≤ cols) × Rising lines cols (m.y + 1) ms

length-spaces : (n : ℕ) → length (spaces n) ≡ n
length-spaces ℕ.zero = refl
length-spaces (ℕ.suc n) = omega (arith, length-spaces n)

centered_fits : (cols : ℕ) (s : Text) → length s ≤ cols → centered cols s + length s ≤ cols
centered_fits cols s h = omega arith

letters-InRow :
    (cols x i : ℕ) (s : Text) → x + i + length s ≤ cols → All (InRow cols 1) (draw_letters x i s)
letters-InRow cols x i [] h = tt
letters-InRow cols x i (c ∷ s) h =
    ((refl, refl, omega arith), letters-InRow cols x (i + 1) s (omega arith))

pub title-InRow : (cols : ℕ) → 127 ≤ cols → All (InRow cols 1) (draw_title cols)
unfolding draw_title
title-InRow cols wide =
    letters-InRow cols (centered cols (codes "sshnack")) 0 (codes "sshnack") (omega (arith, wide))

pub message-InRow :
    (cols : ℕ) (s : Text) → 127 ≤ cols → length s ≤ 127 → All (InRow cols 2) (draw_message cols s)
message-InRow cols [] wide h = tt
message-InRow cols (c ∷ s) wide h = ((refl, refl, centered_fits cols (c ∷ s) (omega arith)), tt)

cut_fits : (n : ℕ) (s : Text) → length (take n s) ≤ n
cut_fits n s = omega (arith, length-take n s)

-- One line at the bottom, before others below it.
row-Rising :
    (lines cols k y : ℕ) (attr : Attr) (s : Text) (ms : List Mark)
    → 1 ≤ k
    → k ≤ lines
    → y ≤ lines - k
    → length s ≤ cols
    → Rising lines cols (lines - k + 1) ms
    → Rising lines cols y (from_bottom lines k (λ r. draw_centered_colored cols r attr s) ++ ms)
row-Rising lines cols k y attr s ms one k_le y_le fits h =
    let shown : ltb lines k ≡ false = ground (arith, k_le) in
    rw shown ((y_le, omega arith, refl, centered_fits cols s fits, h))

-- The rows at the bottom: each line that is drawn stands in its own row.
pub bottom-Rising :
    (lines cols : ℕ) (user_id : ℤ) (a : App)
    → 9 ≤ lines
    → 127 ≤ cols
    → Rising lines cols (lines - 4) (bottom_rows lines cols user_id a)
unfolding bottom_rows
bottom-Rising lines cols user_id a high wide = admins a.admin
  where
    guide : (y : ℕ) → y ≤ lines - 1 → Rising lines cols y (guide_row lines cols a.admin)
    guide y h = subst (Rising lines cols y) (append-nil (guide_row lines cols a.admin)) (
        row-Rising lines cols 1 y (colour (some pair_g7)) (guide_text a.admin) [] (omega arith)
          (omega arith) h (ground (arith, wide)) tt)

    detail :
        (o : Option Product) (y : ℕ)
        → y ≤ lines - 2
        → Rising lines cols y (detail_row lines cols o ++ guide_row lines cols a.admin)
    detail none y h = guide y (omega arith)
    detail (some p) y h =
        row-Rising lines cols 2 y (bold (some pair_g4)) (detail_text p) _ (omega arith)
          (omega arith) h (omega (arith, cut_fits 127 (detail_format p)))
          (guide (lines - 2 + 1) (omega arith))

    status :
        (y : ℕ)
        → y ≤ lines - 3
        → Rising lines cols y (
            status_row lines cols user_id a.balance_gr
            ++ (detail_row lines cols (selected_product a) ++ guide_row lines cols a.admin))
    status y h =
        row-Rising lines cols 3 y (colour (some pair_g7)) (status_text user_id a.balance_gr) _
          (omega arith) (omega arith) h
          (omega (arith, cut_fits 63 (status_format user_id a.balance_gr)))
          (detail (selected_product a) (lines - 3 + 1) (omega arith))

    admins :
        (admin : Bool)
        → Rising lines cols (lines - 4) (
            admin_row lines cols admin
            ++ (status_row lines cols user_id a.balance_gr
                ++ (detail_row lines cols (selected_product a) ++ guide_row lines cols a.admin)))
    admins true =
        row-Rising lines cols 4 (lines - 4) (bold (some pair_red)) (codes "ADMIN") _ (omega arith)
          (omega arith) (omega arith) (omega (arith, wide)) (status (lines - 4 + 1) (omega arith))
    admins false = status (lines - 4) (omega arith)

pub draw_grid_whole-Inside :
    (lines cols : ℕ) (ps : List Product) (selected : ℕ) (balance : ℤ)
    → 9 ≤ lines
    → 127 ≤ cols
    → All (Inside lines cols) (draw_grid lines cols ps selected balance)
unfolding draw_grid
draw_grid_whole-Inside lines cols [] selected balance high wide =
    ((omega arith, omega arith, omega arith), tt)
draw_grid_whole-Inside lines cols (p ∷ ps) selected balance high wide =
    let g = grid_of (p ∷ ps) in
    elim (Bool-cases (ltb cols (grid_w g) || ltb lines (grid_h g + 7))) [
      | inl y ↦ rw y ((omega arith, omega arith, omega arith), tt)
      | inr n ↦
          (draw_grid-Inside lines cols p ps selected balance (ground (arith, n))
            (ground (arith, n))).0
    ]
