-- ===== src/App/Handle.antt =====
-- `confirm_prompt` and `app_handle_key` of tui/src/app.c.
use sshnack.Base.{
  List, ℕ, ◌-◌, ◌==◌, ltb, false, none, some, [], ◌∷◌, ◌++◌, if◌then◌else◌, length, take, ◌&&◌,
  ◌||◌,
}
use sshnack.Base.Int.{pos, negsuc, leb_ℤ, ltb_ℤ}
use sshnack.Base.Text.{Text, codes, is_digit}
use sshnack.Base.Number.{print_int}
use sshnack.App.{
  Product, InputMode, mode_browse, mode_prompt, prompt_none, prompt_deposit, prompt_restock,
  prompt_price, Key, key_up, key_down, key_left, key_right, key_enter, key_backspace, char, App,
  Api, say, selected_product,
}
use sshnack.App.Money.{app_fmt_money, parse_zl_to_gr, parse_pos_int}
use sshnack.App.Cursor.{move_left, move_right, move_vertical}
use sshnack.App.Keys.{
  feed_konami, report, open_prompt, close_prompt, app_refresh, do_buy, do_cashout,
}

-- The last byte is dropped.
abbrev pub erase : Text → Text
erase s = take (length s - 1) s

abbrev pub typed : ℕ → App → App
typed c a =
    if (is_digit c || c == b'.') && ltb (length a.prompt_buf) 15
    then record a { prompt_buf = a.prompt_buf ++ c ∷ [] }
    else a

abbrev pub cancelled : App → App
cancelled a = say (codes "Cancelled") (close_prompt a)

abbrev pub locked : App → App
locked a = if a.admin then say (codes "ADMIN locked") (record a { admin = false }) else a

module _ (api : Api) where
  -- The three bodies of `confirm_prompt`.
  unfoldable pub confirm_deposit : App → api.World → App × api.World
  unfolding parse_zl_to_gr app_fmt_money
  confirm_deposit a w =
      let gr = parse_zl_to_gr a.prompt_buf in
      if leb_ℤ gr (pos 0)
      then (say (codes "Invalid amount") a, w)
      else (let (st, w) = api.deposit gr w in
          let done = codes "Deposited " ++ app_fmt_money gr 16 ++ codes " zl" in
          (report st done (codes "Deposit failed") a, w))

  unfoldable pub confirm_restock : Product → App → api.World → App × api.World
  unfolding parse_pos_int print_int
  confirm_restock p a w =
      let q = parse_pos_int a.prompt_buf in
      if ltb_ℤ q (pos 0)
      then (say (codes "Invalid quantity") a, w)
      else (let (st, w) = api.restock p.slot_id q w in
          let done =
            codes "Restocked slot "
            ++ print_int p.slot_id (codes " (+" ++ print_int q (codes ")")) in
          (report st done (codes "Restock failed") a, w))

  unfoldable pub confirm_price : Product → App → api.World → App × api.World
  unfolding parse_zl_to_gr
  confirm_price p a w =
      let gr = parse_zl_to_gr a.prompt_buf in
      if leb_ℤ gr (pos 0)
      then (say (codes "Invalid price") a, w)
      else (let (st, w) = api.set_price p.item_id gr w in
          (report st (codes "Updated price of " ++ p.name) (codes "Price update failed") a, w))

  -- `if (!a->server_down) app_refresh(a);`
  abbrev pub refresh_if_up : App → api.World → App × api.World
  refresh_if_up a w = if a.server_down then (a, w) else app_refresh api a w

  abbrev pub confirm_pending : App → api.World → App × api.World
  confirm_pending a w = elim a.pending [
    | prompt_none ↦ (a, w)
    | prompt_deposit ↦ confirm_deposit a w
    | prompt_restock ↦ elim (selected_product a) [ none ↦ (a, w) | some p ↦ confirm_restock p a w ]
    | prompt_price ↦ elim (selected_product a) [ none ↦ (a, w) | some p ↦ confirm_price p a w ]
  ]

  unfoldable pub confirm_prompt : App → api.World → App × api.World
  unfolding confirm_deposit confirm_restock confirm_price app_refresh
  confirm_prompt a w = let (a, w) = confirm_pending a w in refresh_if_up (close_prompt a) w

  -- A key while the server cannot be reached.
  abbrev pub offline_key : Key → App → api.World → App × api.World
  offline_key (char c) a w =
      if c == b'r' || c == b'R'
      then app_refresh api a w
      else (if c == b'q' || c == b'Q' then record a { running = false } else a, w)
  offline_key _ a w = (a, w)

  -- A key in the prompt.
  abbrev pub prompt_key : Key → App → api.World → App × api.World
  prompt_key key_enter a w = confirm_prompt a w
  prompt_key key_backspace a w = (record a { prompt_buf = erase a.prompt_buf }, w)
  prompt_key (char c) a w =
      if c == 27 then (cancelled a, w) else if c == 10 || c == 13 then confirm_prompt a w else (
        if c == 127 || c == 8 then record a { prompt_buf = erase a.prompt_buf } else typed c a,
        w,
      )
  prompt_key _ a w = (a, w)

  abbrev pub refreshed : App → api.World → App × api.World
  refreshed a w = let (a, w) = app_refresh api a w in (say (codes "Refreshed") a, w)

  -- The `switch` on a character.
  abbrev pub browse_char : ℕ → App → api.World → App × api.World
  browse_char c a w =
      if c == 10 || c == 13 || c == 32
      then do_buy api a w
      else if c == b'd'
      then (open_prompt prompt_deposit (codes "Deposit amount (zl):") a, w)
      else if c == b'c'
      then do_cashout api a w
      else if c == b'r'
      then refreshed a w
      else if c == b'q'
      then (record a { running = false }, w)
      else if c == b's'
      then (if a.admin then open_prompt prompt_restock (codes "Restock qty:") a else a, w)
      else if c == b'p'
      then (if a.admin then open_prompt prompt_price (codes "New price (zl):") a else a, w)
      else (if c == 27 then locked a else a, w)

  abbrev pub browse_key : Key → App → api.World → App × api.World
  browse_key key_left a w = (move_left a, w)
  browse_key key_right a w = (move_right a, w)
  browse_key key_up a w = (move_vertical (negsuc 0) a, w)
  browse_key key_down a w = (move_vertical (pos 1) a, w)
  browse_key key_enter a w = do_buy api a w
  browse_key key_backspace a w = (a, w)
  browse_key (char c) a w = browse_char c a w

  abbrev pub online_key : InputMode → Key → App → api.World → App × api.World
  online_key mode_prompt key a w = prompt_key key a w
  online_key mode_browse key a w = browse_key key a w

  unfoldable pub app_handle_key : Key → App → api.World → App × api.World
  unfolding feed_konami confirm_prompt do_buy do_cashout app_refresh open_prompt
  app_handle_key key a w =
      let a = feed_konami key a in
      if a.server_down then offline_key key a w else online_key a.mode key a w

  -- The application after the keys, from the start of the main loop.
  unfoldable pub press : List Key → App × api.World → App × api.World
  unfolding app_handle_key
  press [] out = out
  press (key ∷ keys) (a, w) = press keys (app_handle_key key a w)
