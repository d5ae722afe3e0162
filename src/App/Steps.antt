-- ===== src/App/Steps.antt =====
-- The steps that the keys of App/Handle take, one by one, keep the invariant.
use sshnack.Base.{
  ◌≤◌, ◌==◌, ◌&&◌, ◌||◌, inl, inr, Bool, true, false, [], ◌∷◌, ◌++◌, arith, length, length-take,
  length-append, if◌then◌else◌, ltb, ◌-◌, ℕ, Bool-cases, Option-cases,
}
use sshnack.Base.Int.{ℤ, pos, leb_ℤ, ltb_ℤ}
use sshnack.Base.Text.{Text, codes, is_digit}
use sshnack.Base.Number.{print_int}
use sshnack.App.{
  Status, Product, api_ok, api_err_network, api_err_http, api_err_parse, App, Api, say,
  selected_product,
}
use sshnack.App.Cursor.Laws.{Placed}
use sshnack.App.Money.{app_fmt_money, parse_zl_to_gr, parse_pos_int}
use sshnack.App.Keys.{lost, report, close_prompt, app_refresh, bought, cashed, do_buy, do_cashout}
use sshnack.App.Handle.{
  erase, typed, cancelled, confirm_deposit, confirm_restock, confirm_price, locked,
}
use sshnack.App.Invariant.{
  IsOk, say-IsOk, if-IsOk, set_stock-IsOk, set_balance-IsOk, close_prompt-IsOk,
}

pub lost-IsOk : (a : App) → IsOk a → IsOk (lost a)
lost-IsOk a h =
    say-IsOk (codes "Cannot reach server") (record a { server_down = true })
      (record {
        placed = h.placed;
        buf = h.buf;
        label = h.label;
        text = h.text;
        keys = h.keys;
        prompt = h.prompt;
      })

pub report-IsOk : (st : Status) (s t : Text) (a : App) → IsOk a → IsOk (report st s t a)
report-IsOk api_ok s t a h = say-IsOk s a h
report-IsOk api_err_network s t a h = lost-IsOk a h
report-IsOk api_err_http s t a h = say-IsOk t a h
report-IsOk api_err_parse s t a h = say-IsOk t a h

-- A change of what the invariant does not mention.
pub admin-IsOk : (b r : Bool) (a : App) → IsOk a → IsOk (record a { admin = b; running = r })
admin-IsOk b r a h = record {
  placed = h.placed;
  buf = h.buf;
  label = h.label;
  text = h.text;
  keys = h.keys;
  prompt = h.prompt;
}

pub buf-IsOk : (s : Text) (a : App) → length s ≤ 15 → IsOk a → IsOk (record a { prompt_buf = s })
buf-IsOk s a b h = record {
  placed = h.placed;
  buf = b;
  label = h.label;
  text = h.text;
  keys = h.keys;
  prompt = h.prompt;
}

pub erase-IsOk : (a : App) → IsOk a → IsOk (record a { prompt_buf = erase a.prompt_buf })
erase-IsOk a h =
    buf-IsOk (erase a.prompt_buf) a
      (omega (arith, length-take (length a.prompt_buf - 1) a.prompt_buf, h.buf)) h

pub typed-IsOk : (c : ℕ) (a : App) → IsOk a → IsOk (typed c a)
typed-IsOk c a h = elim (Bool-cases ((is_digit c || c == b'.') && ltb (length a.prompt_buf) 15)) [
  | inl e ↦ rw e (
      buf-IsOk (a.prompt_buf ++ c ∷ []) a (ground (arith, e, length-append a.prompt_buf (c ∷ [])))
        h)
  | inr e ↦ rw e h
]

pub moved-IsOk :
    (i : ℕ) (a : App) → Placed i (length a.products) → IsOk a → IsOk (record a { selected = i })
moved-IsOk i a p h = record {
  placed = p;
  buf = h.buf;
  label = h.label;
  text = h.text;
  keys = h.keys;
  prompt = h.prompt;
}

pub locked-IsOk : (a : App) → IsOk a → IsOk (locked a)
locked-IsOk a h =
    if-IsOk a.admin (say (codes "ADMIN locked") (record a { admin = false })) a
      (say-IsOk (codes "ADMIN locked") (record a { admin = false })
        (admin-IsOk false a.running a h))
      h

pub cancelled-IsOk : (a : App) → IsOk a → IsOk (cancelled a)
cancelled-IsOk a h = say-IsOk (codes "Cancelled") (close_prompt a) (close_prompt-IsOk a h)

module _ (api : Api) where
  -- The application of a pair.
  abbrev pub AllOk : App × api.World → Type 0
  AllOk out = IsOk out.0

  pub if-AllOk : (b : Bool) (x y : App × api.World) → AllOk x → AllOk y → AllOk (if b then x else y)
  if-AllOk true x y h k = h
  if-AllOk false x y h k = k

  pub app_refresh-IsOk : (a : App) (w : api.World) → IsOk a → AllOk (app_refresh api a w)
  unfolding app_refresh
  app_refresh-IsOk a w h =
      let got = api.get_stock w in
      let bal = api.get_balance got.1 in
      set_balance-IsOk bal.0.0 bal.0.1 _ (
        set_stock-IsOk got.0.0 got.0.1 (record a { server_down = false })
          (record {
            placed = h.placed;
            buf = h.buf;
            label = h.label;
            text = h.text;
            keys = h.keys;
            prompt = h.prompt;
          }))

  pub bought-IsOk :
      (st : Status) (p : Product) (a : App) (w : api.World) → IsOk a → AllOk (bought api st p a w)
  bought-IsOk api_ok p a w h =
      app_refresh-IsOk _ w (say-IsOk (codes "Dispensing " ++ p.name ++ codes "!") a h)
  bought-IsOk api_err_network p a w h = lost-IsOk a h
  bought-IsOk api_err_http p a w h = app_refresh-IsOk _ w (say-IsOk (codes "Purchase failed") a h)
  bought-IsOk api_err_parse p a w h = app_refresh-IsOk _ w (say-IsOk (codes "Purchase failed") a h)

  pub do_buy-IsOk : (a : App) (w : api.World) → IsOk a → AllOk (do_buy api a w)
  unfolding do_buy
  do_buy-IsOk a w h = elim (Option-cases (selected_product a)) [
    | inl e ↦ rw (e, do_buy) h
    | inr (p, e) ↦
        rw (e, do_buy)
          (if-AllOk (leb_ℤ p.stock_qty (pos 0)) _ _ (say-IsOk (codes "Sold out") a h) (
            if-AllOk (ltb_ℤ a.balance_gr p.price_gr) _ _
              (say-IsOk
                (codes "Insufficient balance (need " ++ app_fmt_money p.price_gr 16 ++ codes " zl)")
                a h)
              (bought-IsOk (api.purchase p.slot_id w).0 p a (api.purchase p.slot_id w).1 h)))
  ]

  pub cashed-IsOk :
      (st : Status) (n : ℤ) (a : App) (w : api.World) → IsOk a → AllOk (cashed api st n a w)
  cashed-IsOk api_ok n a w h =
      app_refresh-IsOk _ w (say-IsOk (codes "Cashed out " ++ app_fmt_money n 16 ++ codes " zl") a h)
  cashed-IsOk api_err_network n a w h = lost-IsOk a h
  cashed-IsOk api_err_http n a w h = say-IsOk (codes "Cash out failed") a h
  cashed-IsOk api_err_parse n a w h = say-IsOk (codes "Cash out failed") a h

  pub do_cashout-IsOk : (a : App) (w : api.World) → IsOk a → AllOk (do_cashout api a w)
  unfolding do_cashout
  do_cashout-IsOk a w h = let got = api.refund w in cashed-IsOk got.0.0 got.0.1 a got.1 h

  pub confirm_deposit-IsOk : (a : App) (w : api.World) → IsOk a → AllOk (confirm_deposit api a w)
  unfolding confirm_deposit
  confirm_deposit-IsOk a w h =
      if-AllOk (leb_ℤ (parse_zl_to_gr a.prompt_buf) (pos 0)) _ _
        (say-IsOk (codes "Invalid amount") a h)
        (report-IsOk (api.deposit (parse_zl_to_gr a.prompt_buf) w).0
          (codes "Deposited " ++ app_fmt_money (parse_zl_to_gr a.prompt_buf) 16 ++ codes " zl")
          (codes "Deposit failed") a h)

  pub confirm_restock-IsOk :
      (p : Product) (a : App) (w : api.World) → IsOk a → AllOk (confirm_restock api p a w)
  unfolding confirm_restock
  confirm_restock-IsOk p a w h =
      let q = parse_pos_int a.prompt_buf in
      if-AllOk (ltb_ℤ q (pos 0)) _ _ (say-IsOk (codes "Invalid quantity") a h) (
        report-IsOk (api.restock p.slot_id q w).0
          (codes "Restocked slot " ++ print_int p.slot_id (codes " (+" ++ print_int q (codes ")")))
          (codes "Restock failed") a h)

  pub confirm_price-IsOk :
      (p : Product) (a : App) (w : api.World) → IsOk a → AllOk (confirm_price api p a w)
  unfolding confirm_price
  confirm_price-IsOk p a w h =
      let gr = parse_zl_to_gr a.prompt_buf in
      if-AllOk (leb_ℤ gr (pos 0)) _ _ (say-IsOk (codes "Invalid price") a h) (
        report-IsOk (api.set_price p.item_id gr w).0 (codes "Updated price of " ++ p.name)
          (codes "Price update failed") a h)
