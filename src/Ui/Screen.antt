-- ===== src/Ui/Screen.antt =====
-- tui/src/ui.c: all that `ui_render` draws, around the grid of the slots.
pub mod Rows
pub mod Laws
use sshnack.Base.{
  ℕ, ◌+◌, ◌-◌, ◌/◌, ◌%◌, ◌==◌, Bool, Option, none, some, List, [], ◌∷◌, ◌++◌, if◌then◌else◌, length,
  take, get_elem?, ltb,
}
use sshnack.Base.Int.{ℤ, pos, leb_ℤ}
use sshnack.Base.Text.{Text, codes}
use sshnack.Base.Number.{print_int}
use sshnack.App.{App, Product, InputMode, mode_browse, mode_prompt, selected_product}
use sshnack.App.Money.{app_fmt_money}
use sshnack.Ui.{centered, draw_centered, draw_grid}
use sshnack.Ui.Cell.{
  Mark, Attr, plain, bold, colour, Pair, pair_red, pair_g1, pair_g2, pair_g3, pair_g4, pair_g5,
  pair_g6, pair_g7, at, draw_box, spaces,
}

abbrev pub draw_centered_colored : ℕ → ℕ → Attr → Text → Mark
draw_centered_colored cols row attr s = at row (centered cols s) attr s

-- The loop of `draw_title`, from the letter `i` on.
abbrev pub title_pairs : List Pair
title_pairs = pair_g1 ∷ pair_g2 ∷ pair_g3 ∷ pair_g4 ∷ pair_g5 ∷ pair_g6 ∷ pair_g7 ∷ []

abbrev pub draw_letters : ℕ → ℕ → Text → List Mark
draw_letters x i [] = []
draw_letters x i (c ∷ s) =
    at 1 (x + i) (bold (get_elem? title_pairs (i % 7))) (c ∷ []) ∷ draw_letters x (i + 1) s

unfoldable pub draw_title : ℕ → List Mark
draw_title cols = draw_letters (centered cols (codes "sshnack")) 0 (codes "sshnack")

-- A row that is counted from the bottom: `LINES - k`. There is none where it is negative.
abbrev pub from_bottom : ℕ → ℕ → (ℕ → Mark) → List Mark
from_bottom lines k draw = if ltb lines k then [] else draw (lines - k) ∷ []

abbrev pub admin_row : ℕ → ℕ → Bool → List Mark
admin_row lines cols admin =
    if admin
    then from_bottom lines 4
        (λ y. draw_centered_colored cols y (bold (some pair_red)) (codes "ADMIN"))
    else []

-- `%8s`
abbrev pub right_8 : Text → Text
right_8 s = spaces (8 - length s) ++ s

unfoldable pub status_format : ℤ → ℤ → Text
status_format user_id balance =
    codes "user #"
    ++ print_int user_id
        (codes "    Balance: " ++ right_8 (app_fmt_money balance 16) ++ codes " zl")

-- `char status[64]`
abbrev pub status_text : ℤ → ℤ → Text
status_text user_id balance = take 63 (status_format user_id balance)

abbrev pub status_row : ℕ → ℕ → ℤ → ℤ → List Mark
status_row lines cols user_id balance =
    from_bottom lines 3
      (λ y. draw_centered_colored cols y (colour (some pair_g7)) (status_text user_id balance))

unfoldable pub detail_format : Product → Text
detail_format p =
    if leb_ℤ p.stock_qty (pos 0)
    then codes "[ " ++ p.name ++ codes " | SOLD OUT ]"
    else codes "[ "
      ++ p.name
      ++ codes " | "
      ++ app_fmt_money p.price_gr 16
      ++ codes " zl | x"
      ++ print_int p.stock_qty (codes " in stock ]")

-- `char detail[128]`
abbrev pub detail_text : Product → Text
detail_text p = take 127 (detail_format p)

-- The product under the cursor, if there is one.
abbrev pub detail_row : ℕ → ℕ → Option Product → List Mark
detail_row lines cols none = []
detail_row lines cols (some p) =
    from_bottom lines 2 (λ y. draw_centered_colored cols y (bold (some pair_g4)) (detail_text p))

abbrev pub guide_text : Bool → Text
guide_text admin =
    if admin
    then codes "re[s]tock  set [p]rice  [Esc] exit admin  [q]uit"
    else codes "[Enter] buy  [d]eposit  [c]ashout  [r]efresh  [q]uit"

abbrev pub guide_row : ℕ → ℕ → Bool → List Mark
guide_row lines cols admin =
    from_bottom lines 1
      (λ y. draw_centered_colored cols y (colour (some pair_g7)) (guide_text admin))

-- The four rows at the bottom.
unfoldable pub bottom_rows : ℕ → ℕ → ℤ → App → List Mark
unfolding status_format detail_format
bottom_rows lines cols user_id a =
    admin_row lines cols a.admin
    ++ (status_row lines cols user_id a.balance_gr
        ++ (detail_row lines cols (selected_product a) ++ guide_row lines cols a.admin))

abbrev pub draw_message : ℕ → Text → List Mark
draw_message cols [] = []
draw_message cols (c ∷ s) = draw_centered_colored cols 2 (bold (some pair_g2)) (c ∷ s) ∷ []

-- The box of the prompt, whose corner is at `py` and `px`.
abbrev pub prompt_box : ℕ → ℕ → Text → Text → List Mark
prompt_box py px label buf =
    at py px plain (spaces 40)
      ∷ at (py + 1) px plain (spaces 40)
      ∷ at (py + 2) px plain (spaces 40)
      ∷ at (py + 3) px plain (spaces 40)
      ∷ at (py + 4) px plain (spaces 40)
      ∷ draw_box py px 5 40 plain
    ++ (at (py + 1) (px + 2) plain (take (40 - 4) label)
        ∷ at (py + 2) (px + 2) plain (codes "> " ++ take (40 - 6) buf ++ codes "_")
        ∷ at (py + 3) (px + 2) plain (codes "[Enter] confirm   [Esc] cancel")
        ∷ [])

unfoldable pub draw_prompt : ℕ → ℕ → InputMode → Text → Text → List Mark
unfolding draw_box
draw_prompt lines cols mode_browse label buf = []
draw_prompt lines cols mode_prompt label buf =
    prompt_box ((lines - 5) / 2) ((cols - 40) / 2) label buf

-- The two lines while the server cannot be reached.
abbrev pub draw_down : ℕ → ℕ → List Mark
draw_down lines cols =
    (if lines / 2 == 0
      then []
      else draw_centered cols (lines / 2 - 1) (codes "Cannot reach server") ∷ [])
    ++ (draw_centered cols (lines / 2 + 1) (codes "[r] retry    [q] quit") ∷ [])

-- The marks in the order in which they are drawn.
unfoldable pub ui_render : ℕ → ℕ → ℤ → App → List Mark
unfolding draw_title draw_grid bottom_rows draw_prompt
ui_render lines cols user_id a =
    if a.server_down
    then draw_down lines cols
    else draw_title cols
      ++ (draw_grid lines cols a.products a.selected a.balance_gr
          ++ (bottom_rows lines cols user_id a
              ++ (draw_message cols a.message
                  ++ draw_prompt lines cols a.mode a.prompt_label a.prompt_buf)))
