-- ===== src/Ui/Screen/Laws.antt =====
-- All that `ui_render` draws, on a screen of at least 9 rows and 127 columns.
use sshnack.Base.{
  ℕ, ◌+◌, ◌-◌, ◌≤◌, ◌++◌, arith, Bool-cases, inl, inr, List, [], ◌∷◌, All, length, length-append,
  length-take, take,
}
use sshnack.Base.Int.{ℤ}
use sshnack.Base.Text.{Text, codes}
use sshnack.App.{App, InputMode, mode_browse, mode_prompt}
use sshnack.Ui.{draw_grid}
use sshnack.Ui.Cell.{Mark, draw_box}
use sshnack.Ui.Placed.{All-map}
use sshnack.Ui.Laws.{Inside, All-append}
use sshnack.Ui.Screen.{draw_title, bottom_rows, draw_message, draw_prompt, draw_down, ui_render}
use sshnack.Ui.Screen.Rows.{
  OnScreen, InRow, Rising, title-InRow, message-InRow, bottom-Rising, draw_grid_whole-Inside,
}

module _ (lines cols : ℕ) (high : 9 ≤ lines) (wide : 127 ≤ cols) where
  in_row : (y : ℕ) (ms : List Mark) → y ≤ 2 → All (InRow cols y) ms → All (OnScreen lines cols) ms
  in_row y ms h k =
      All-map (InRow cols y) (OnScreen lines cols) ms (λ m r. (omega (arith, h, r, high), r.2)) k

  Rising-All : (y : ℕ) (ms : List Mark) → Rising lines cols y ms → All (OnScreen lines cols) ms
  Rising-All y [] h = tt
  Rising-All y (m ∷ ms) h = ((omega (arith, h.1, h.2), h.3), Rising-All (m.y + 1) ms h.4)

  prompt-All :
      (m : InputMode) (label buf : Text)
      → All (OnScreen lines cols) (draw_prompt lines cols m label buf)
  unfolding draw_prompt draw_box
  prompt-All mode_browse label buf = tt
  prompt-All mode_prompt label buf = ground (
    arith,
    length-take 36 label,
    length-append (codes "> " ++ take 34 buf) (codes "_"),
    length-take 34 buf,
    high,
    wide,
  )

  down-All : All (OnScreen lines cols) (draw_down lines cols)
  down-All = ground (arith, high, wide)

  -- On a screen of at least 9 rows and 127 columns, with a message that fits its buffer: all that
  -- `ui_render` draws is on the screen. While the server can be reached, the title is in row 1 and the
  -- message in row 2; the slots, or the text in their place, are between row 3 and the four rows at
  -- the bottom; and each line at the bottom has one of these rows for itself.
  pub ui_render-OnScreen :
      (user_id : ℤ) (a : App)
      → length a.message ≤ 127
      → All (OnScreen lines cols) (ui_render lines cols user_id a)
        × (All (InRow cols 1) (draw_title cols)
            × All (InRow cols 2) (draw_message cols a.message)
            × All (Inside lines cols) (draw_grid lines cols a.products a.selected a.balance_gr)
            × Rising lines cols (lines - 4) (bottom_rows lines cols user_id a))
  unfolding ui_render
  ui_render-OnScreen user_id a fits = (
    elim (Bool-cases a.server_down) [
      | inl y ↦ rw y down-All
      | inr n ↦ rw n (
          All-append _ (draw_title cols) _ (in_row 1 (draw_title cols) (omega arith) title) (
            All-append _ (draw_grid lines cols a.products a.selected a.balance_gr) _
              (All-map (Inside lines cols) (OnScreen lines cols)
                (draw_grid lines cols a.products a.selected a.balance_gr)
                (λ m h. (omega (arith, h.1), h.2)) grid)
              (All-append _ (bottom_rows lines cols user_id a) _
                (Rising-All (lines - 4) (bottom_rows lines cols user_id a) bottom)
                (All-append _ (draw_message cols a.message) _
                  (in_row 2 (draw_message cols a.message) (omega arith) message)
                  (prompt-All a.mode a.prompt_label a.prompt_buf)))))
    ],
    (title, message, grid, bottom),
  )
    where
      title : All (InRow cols 1) (draw_title cols)
      title = title-InRow cols wide

      message : All (InRow cols 2) (draw_message cols a.message)
      message = message-InRow cols a.message wide fits

      grid : All (Inside lines cols) (draw_grid lines cols a.products a.selected a.balance_gr)
      grid = draw_grid_whole-Inside lines cols a.products a.selected a.balance_gr high wide

      bottom : Rising lines cols (lines - 4) (bottom_rows lines cols user_id a)
      bottom = bottom-Rising lines cols user_id a high wide
