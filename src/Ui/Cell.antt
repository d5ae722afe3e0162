-- ===== src/Ui/Cell.antt =====
-- `draw_box` and `draw_cell` of tui/src/ui.c.
use sshnack.Base.{
  ℕ, ◌+◌, ◌-◌, ◌%◌, Bool, Option, none, some, List, [], ◌∷◌, ◌++◌, if◌then◌else◌, length, take,
  get_elem?, ◌==◌,
}
use sshnack.Base.Int.{ℤ, pos, negsuc, ◌+ℤ◌, leb_ℤ}
use sshnack.Base.Text.{Text, codes}
use sshnack.Base.Number.{print_int}
use sshnack.App.{Product}
use sshnack.App.Cursor.{app_slot_col}
use sshnack.App.Money.{app_fmt_money}

-- The colour pairs of `ui_init`.
pub data Pair : Type 0 where
  pair_red pair_select pair_g1 pair_g2 pair_g3 pair_g4 pair_g5 pair_g6 pair_g7 pair_afford : Pair

-- The attributes that are on; a pair is `none` where `col_pairs` is read outside its bounds.
pub data Attr : Type 0 where
  plain dim : Attr
  colour bold : Option Pair → Attr

-- What one call of ncurses draws: `h` rows and `w` columns from a corner on.
pub record Mark : Type 0 where
  pub y : ℕ
  pub x : ℕ
  pub h : ℕ
  pub w : ℕ
  pub attr : Attr
  pub text : Text

-- `mvprintw` in one row.
abbrev pub at : ℕ → ℕ → Attr → Text → Mark
at y x attr s = record { y = y; x = x; h = 1; w = length s; attr = attr; text = s }

-- `mvhline`, `mvvline` and `mvaddch` with the characters of a frame.
abbrev pub line : ℕ → ℕ → ℕ → ℕ → Attr → Mark
line y x h w attr = record { y = y; x = x; h = h; w = w; attr = attr; text = [] }

unfoldable pub draw_box : ℕ → ℕ → ℕ → ℕ → Attr → List Mark
draw_box y x h w attr =
    line y (x + 1) 1 (w - 2) attr
    ∷ line (y + h - 1) (x + 1) 1 (w - 2) attr
    ∷ line (y + 1) x (h - 2) 1 attr
    ∷ line (y + 1) (x + w - 1) (h - 2) 1 attr
    ∷ line y x 1 1 attr
    ∷ line y (x + w - 1) 1 1 attr
    ∷ line (y + h - 1) x 1 1 attr
    ∷ line (y + h - 1) (x + w - 1) 1 1 attr
    ∷ []

abbrev pub col_pairs : List Pair
col_pairs = pair_g2 ∷ pair_g3 ∷ pair_g4 ∷ pair_g5 ∷ pair_g6 ∷ []

-- `col_pairs[((slot_id % 10) - 1 + 5) % 5]`
abbrev pub pair_at : ℤ → Option Pair
pair_at (pos n) = get_elem? col_pairs (n % 5)
pair_at (negsuc n) = if (n + 1) % 5 == 0 then some pair_g2 else none

abbrev pub col_pair : ℤ → Option Pair
col_pair slot_id = pair_at (app_slot_col slot_id +ℤ pos 4)

abbrev pub spaces : ℕ → Text
spaces ℕ.zero = []
spaces (ℕ.suc n) = b' ' ∷ spaces n

-- `%-8.8s` and `%-5.5s`
unfoldable pub field : ℕ → Text → Text
field n s = take n (s ++ spaces n)

-- The frame of a cell and the number and name in it.
abbrev pub cell_attr : Product → Bool → Attr
cell_attr p selected =
    if selected
    then bold (some pair_select)
    else if leb_ℤ p.stock_qty (pos 0)
    then dim
    else colour (col_pair p.slot_id)

abbrev pub slot_text : Product → Text
slot_text p = take 31 (print_int p.slot_id (codes " " ++ field 5 p.name))

abbrev pub price_text : Product → Text
price_text p = take 31 (app_fmt_money p.price_gr 16 ++ codes " zl")

abbrev pub stock_text : Product → Text
stock_text p = take 31 (codes " x" ++ print_int p.stock_qty [])

-- The attributes of the price and of the quantity.
abbrev pub price_attr : Product → Bool → ℤ → Attr
price_attr p selected balance =
    if selected
    then bold (some pair_select)
    else if leb_ℤ p.price_gr balance
    then bold (some pair_afford)
    else bold (some pair_red)

abbrev pub qty_attr : Product → Bool → Attr
qty_attr p selected =
    if selected
    then bold (some pair_select)
    else if leb_ℤ p.stock_qty (pos 5)
    then bold (some pair_g2)
    else colour (some pair_g3)

-- The two lower rows of a cell.
abbrev pub cell_rows : ℕ → ℕ → Product → Bool → ℤ → List Mark
cell_rows y x p selected balance =
    if leb_ℤ p.stock_qty (pos 0)
    then at (y + 2) (x + 1) dim (field 8 (codes "SOLD OUT"))
      ∷ at (y + 3) (x + 1) dim (field 8 [])
      ∷ []
    else at (y + 2) (x + 1) (price_attr p selected balance) (field 8 (price_text p))
      ∷ at (y + 3) (x + 1) (qty_attr p selected) (field 8 (stock_text p))
      ∷ []

-- A cell has 5 rows and 10 columns.
unfoldable pub draw_cell : ℕ → ℕ → Product → Bool → ℤ → List Mark
unfolding draw_box field
draw_cell y x p selected balance =
    draw_box y x 5 10 (cell_attr p selected)
    ++ (at (y + 1) (x + 1) (cell_attr p selected) (field 8 (slot_text p))
        ∷ cell_rows y x p selected balance)
