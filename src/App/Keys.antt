-- ===== src/App/Keys.antt =====
-- What the keys do in tui/src/app.c.
use sshnack.Base.{
  ℕ, ◌-◌, ◌==◌, ltb, leb, Bool, true, false, none, some, List, [], ◌∷◌, ◌++◌, if◌then◌else◌, length,
  take, drop, not, ◌&&◌,
}
use sshnack.Base.Int.{ℤ, pos, leb_ℤ, ltb_ℤ}
use sshnack.Base.Text.{Text, codes}
use sshnack.App.{
  Status, api_ok, api_err_network, api_err_http, api_err_parse, Product, mode_browse, mode_prompt,
  PromptAction, prompt_none, prompt_deposit, Key, key_up, key_down, key_left, key_right, key_enter,
  key_backspace, char, App, Api, say, selected_product,
}
use sshnack.App.Money.{app_fmt_money}

abbrev pub konami_seq : List Key
konami_seq =
    key_up
    ∷ key_up
    ∷ key_down
    ∷ key_down
    ∷ key_left
    ∷ key_right
    ∷ key_left
    ∷ key_right
    ∷ char b'b'
    ∷ char b'a'
    ∷ []

abbrev pub key_number : Key → ℕ × ℕ
key_number key_up = (0, 0)
key_number key_down = (1, 0)
key_number key_left = (2, 0)
key_number key_right = (3, 0)
key_number key_enter = (4, 0)
key_number key_backspace = (5, 0)
key_number (char c) = (6, c)

abbrev pub key_eq : Key → Key → Bool
key_eq k l = (key_number k).0 == (key_number l).0 && (key_number k).1 == (key_number l).1

unfoldable pub keys_eq : List Key → List Key → Bool
keys_eq [] [] = true
keys_eq [] (_ ∷ _) = false
keys_eq (_ ∷ _) [] = false
keys_eq (k ∷ ks) (l ∷ ls) = key_eq k l && keys_eq ks ls

-- The keys after `key`, of which the first is dropped when there are ten.
abbrev pub fed : List Key → Key → List Key
fed konami key = (if ltb (length konami) 10 then konami else drop 1 konami) ++ key ∷ []

unfoldable pub feed_konami : Key → App → App
unfolding keys_eq
feed_konami key a =
    let konami = fed a.konami key in
    if keys_eq konami konami_seq
    then say (if not a.admin then codes "ADMIN unlocked" else codes "ADMIN locked")
        (record a { admin = not a.admin; konami = [] })
    else record a { konami = konami }

unfoldable pub set_status : Status → Text → App → App
set_status api_ok what a = a
set_status api_err_network what a =
    say (codes "Cannot reach server") (record a { server_down = true })
set_status api_err_http what a = say (what ++ codes ": server rejected request") a
set_status api_err_parse what a = say (what ++ codes ": unexpected server response") a

-- The new list of products, with the cursor moved to its end if it is shorter.
unfoldable pub set_stock : Status → List Product → App → App
unfolding set_status
set_stock api_ok prods a = record a {
  products = prods;
  selected = if leb (length prods) a.selected then length prods - 1 else a.selected;
}
set_stock st prods a = set_status st (codes "stock") a

unfoldable pub set_balance : Status → ℤ → App → App
unfolding set_status
set_balance api_ok bal a = record a { balance_gr = bal }
set_balance st bal a = set_status st (codes "balance") a

abbrev pub lost : App → App
lost a = say (codes "Cannot reach server") (record a { server_down = true })

-- The message of a call, by its status.
abbrev pub report : Status → Text → Text → App → App
report api_ok done failed a = say done a
report api_err_network done failed a = lost a
report _ done failed a = say failed a

abbrev pub no_slot : PromptAction → List Product → Bool
no_slot action (_ ∷ _) = false
no_slot prompt_deposit [] = false
no_slot _ [] = true

abbrev pub opened : PromptAction → Text → App → App
opened action label a = record a {
  mode = mode_prompt;
  pending = action;
  prompt_label = take 47 label;
  prompt_buf = [];
}

unfoldable pub open_prompt : PromptAction → Text → App → App
open_prompt action label a =
    if no_slot action a.products then say (codes "No slot selected") a else opened action label a

abbrev pub close_prompt : App → App
close_prompt a = record a { mode = mode_browse; pending = prompt_none; prompt_buf = [] }

-- `memset`, and the three fields that are set after it.
abbrev pub cleared : App
cleared = record {
  products = [];
  balance_gr = pos 0;
  selected = 0;
  admin = false;
  running = true;
  server_down = false;
  mode = mode_browse;
  pending = prompt_none;
  prompt_label = [];
  prompt_buf = [];
  message = [];
  konami = [];
}

module _ (api : Api) where
  unfoldable pub app_refresh : App → api.World → App × api.World
  unfolding set_stock set_balance
  app_refresh a w =
      let ((st, prods), w) = api.get_stock w in
      let a = set_stock st prods (record a { server_down = false }) in
      let ((st, bal), w) = api.get_balance w in (set_balance st bal a, w)

  unfoldable pub app_init : api.World → App × api.World
  unfolding app_refresh
  app_init w = let (a, w) = app_refresh cleared w in (record a { message = [] }, w)

  -- `do_buy` after the call of the server.
  abbrev pub bought : Status → Product → App → api.World → App × api.World
  bought api_ok p a w = app_refresh (say (codes "Dispensing " ++ p.name ++ codes "!") a) w
  bought api_err_network p a w = (lost a, w)
  bought _ p a w = app_refresh (say (codes "Purchase failed") a) w

  -- `do_buy` once the product is known.
  abbrev pub buying : Product → App → api.World → App × api.World
  buying p a w =
      if leb_ℤ p.stock_qty (pos 0)
      then (say (codes "Sold out") a, w)
      else if ltb_ℤ a.balance_gr p.price_gr
      then (
        say (codes "Insufficient balance (need " ++ app_fmt_money p.price_gr 16 ++ codes " zl)") a,
        w,
      )
      else (let (st, w) = api.purchase p.slot_id w in bought st p a w)

  unfoldable pub do_buy : App → api.World → App × api.World
  unfolding app_refresh app_fmt_money
  do_buy a w = elim (selected_product a) [ none ↦ (a, w) | some p ↦ buying p a w ]

  abbrev pub cashed : Status → ℤ → App → api.World → App × api.World
  cashed api_ok refund a w =
      app_refresh (say (codes "Cashed out " ++ app_fmt_money refund 16 ++ codes " zl") a) w
  cashed api_err_network refund a w = (lost a, w)
  cashed _ refund a w = (say (codes "Cash out failed") a, w)

  unfoldable pub do_cashout : App → api.World → App × api.World
  unfolding app_refresh app_fmt_money
  do_cashout a w = let ((st, refund), w) = api.refund w in cashed st refund a w
