-- ===== src/Wire/Message.antt =====
-- What the message on the screen after a purchase says of the server's tables.
use mathlib.Core.Path.{subst}
use sshnack.Base.{
  ◌⊎◌, inl, inr, sym, none, List, Bool, ℕ, ◌≡◌, ◌≢◌, ◌++◌, ap, arith, Bool-cases, inl, inr, some,
  take, [], ◌∷◌, false,
}
use sshnack.Base.Int.{ℤ, pos, IsInt, leb_ℤ, ltb_ℤ}
use sshnack.Base.Text.{Text, codes}
use sshnack.Base.Number.{print_int}
use sshnack.Tables.{Tables}
use sshnack.Tables.Range.{InRange}
use sshnack.Sqlite.{Sqlite, IsSqlite}
use sshnack.Services.Common.{idle}
use sshnack.Services.Orders.Laws.{purchase_of}
use sshnack.Config.Laws.{IsUser}
use sshnack.Server.{Server}
use sshnack.App.{
  App, Api, Product, Status, api_ok, api_err_network, api_err_http, api_err_parse, selected_product,
  say,
}
use sshnack.App.Money.{app_fmt_money}
use sshnack.App.Keys.{set_status, set_stock, set_balance, app_refresh, do_buy, lost, buying}
use sshnack.Client.Http.{ApiClient, Curl}
use sshnack.Client.Calls.{Json, api_purchase, client_api}
use sshnack.Wire.{Delivers}
use sshnack.Wire.Told.{Told}
use sshnack.Wire.Orders.{api_purchase-Told}
use sshnack.Wire.Reads.{client_refresh, client_bought, client_buy, client_refresh_keeps}

-- The first byte of a text, by which the messages differ.
abbrev initial : Text → ℕ
initial [] = 0
initial (c ∷ _) = c

-- A refresh leaves the message, or sets one that begins with C, s or b.
module _ (k : ℕ) (not_c : b'C' ≢ k) (not_s : b's' ≢ k) (not_b : b'b' ≢ k) where
  stock_message :
      (st : Status) (ps : List Product) (a : App)
      → initial a.message ≢ k
      → initial (set_stock st ps a).message ≢ k
  unfolding set_stock set_status
  stock_message api_ok ps a h = h
  stock_message api_err_network ps a h = not_c
  stock_message api_err_http ps a h = not_s
  stock_message api_err_parse ps a h = not_s

  balance_message :
      (st : Status) (bal : ℤ) (a : App)
      → initial a.message ≢ k
      → initial (set_balance st bal a).message ≢ k
  unfolding set_balance set_status
  balance_message api_ok bal a h = h
  balance_message api_err_network bal a h = not_c
  balance_message api_err_http bal a h = not_b
  balance_message api_err_parse bal a h = not_b

  refresh_message :
      (api : Api) (a : App) (w : api.World)
      → initial a.message ≢ k
      → initial (app_refresh api a w).0.message ≢ k
  unfolding app_refresh
  refresh_message api a w h =
      let ((st, ps), w') = api.get_stock w in
      let ((st', bal), w'') = api.get_balance w' in
      balance_message st' bal _ (stock_message st ps (record a { server_down = false }) h)

-- The message that a product is dispensed, and the one that the purchase has failed.
abbrev pub Dispensing : Text → Type 0
Dispensing s = take 10 s ≡ codes "Dispensing"

abbrev pub Failing : Text → Type 0
Failing s = s ≡ codes "Purchase failed"

initial-Dispensing : (s : Text) → Dispensing s → initial s ≡ b'D'
initial-Dispensing [] e = ap initial e
initial-Dispensing (c ∷ s) e = ap initial e

initial-Failing : (s : Text) → Failing s → initial s ≡ b'P'
initial-Failing s e = ap initial e

module _ (curl : Curl) (json : Json) (gives callocs : ℕ → Bool) (c : ApiClient) (server : Server)
    (e : Sqlite) (laws : IsSqlite e) (link : Delivers curl server e c) (user : IsUser c.user_id)
    (other : print_int c.user_id [] ≢ server.admin_token) (t : Tables) (fk : Bool)
    (p : Product) where
  -- A message that does not mislead: either the purchase is done or nothing has changed.
  abbrev pub Honest : App → curl.World → Type 0
  Honest a w =
      ((after : Tables) × (purchase_of c.user_id p.slot_id t ≡ some after)
        × (laws.view (link.connection w) ≡ idle after fk)
        × (Failing a.message → ⊥))
      ⊎ ((laws.view (link.connection w) ≡ idle t fk) × (Dispensing a.message → ⊥))

  -- A message that begins otherwise.
  not-Failing : (s : Text) → initial s ≢ b'P' → Failing s → ⊥
  not-Failing s f h = f (initial-Failing s h)

  not-Dispensing : (s : Text) → initial s ≢ b'D' → Dispensing s → ⊥
  not-Dispensing s d h = d (initial-Dispensing s h)

  refused-Honest :
      (a : App) (w : curl.World)
      → laws.view (link.connection w) ≡ idle t fk
      → initial a.message ≢ b'D'
      → Honest a w
  refused-Honest a w start d = inr (start, not-Dispensing a.message d)

  lost-Honest :
      (a : App) (w : curl.World)
      → Told
          (purchase_of c.user_id p.slot_id t)
          t
          fk
          api_err_network
          (laws.view (link.connection w))
      → Honest (lost a) w
  lost-Honest a w (inl same) = refused-Honest (lost a) w same (omega arith)
  lost-Honest a w (inr (after, meant, done)) =
      inl (after, meant, done, not-Failing (lost a).message (omega arith))

  bought-Honest :
      (st : Status) (a : App) (w : curl.World)
      → Told (purchase_of c.user_id p.slot_id t) t fk st (laws.view (link.connection w))
      → let (a', w') = client_bought curl json gives callocs c st p a w in Honest a' w'
  unfolding client_bought client_refresh client_api
  bought-Honest api_ok a w (after, meant, done) =
      let api = client_api curl json gives callocs c in
      let a' = say (codes "Dispensing " ++ p.name ++ codes "!") a in
      inl (
        after,
        meant,
        client_refresh_keeps curl json gives callocs c server e laws link user other after fk a' w
            done,
        not-Failing _
            (refresh_message b'P' (omega arith) (omega arith) (omega arith) api a' w (omega arith)),
      )
  bought-Honest api_err_http a w told =
      let api = client_api curl json gives callocs c in
      let a' = say (codes "Purchase failed") a in
      inr (
        client_refresh_keeps curl json gives callocs c server e laws link user other t fk a' w told,
        not-Dispensing _
            (refresh_message b'D' (omega arith) (omega arith) (omega arith) api a' w (omega arith)),
      )
  bought-Honest api_err_network a w told = lost-Honest a w told
  bought-Honest api_err_parse a w told = absurd told

  buying_here : App → curl.World → App × curl.World
  unfolding client_api
  buying_here = buying (client_api curl json gives callocs c) p

  buying-Honest :
      (a : App) (w : curl.World)
      → IsInt p.slot_id
      → laws.view (link.connection w) ≡ idle t fk
      → InRange t
      → let (a', w') = buying_here a w in Honest a' w'
  unfolding buying_here client_bought client_api
  buying-Honest a w int start range = elim (Bool-cases (leb_ℤ p.stock_qty (pos 0))) [
    | inl y ↦ rw y (refused-Honest (say (codes "Sold out") a) w start (omega arith))
    | inr n ↦ rw n (elim (Bool-cases (ltb_ℤ a.balance_gr p.price_gr)) [
      | inl y ↦ rw y (
          refused-Honest
            (say
              (codes "Insufficient balance (need " ++ app_fmt_money p.price_gr 16 ++ codes " zl)")
              a)
            w start (omega arith))
      | inr m ↦ rw m (
          let (st, w') = api_purchase curl json gives callocs c p.slot_id w in
          bought-Honest st a w'
            (api_purchase-Told curl json gives callocs c server e laws link user other p.slot_id w t
              fk int start range).0)
    ])
  ]

  -- The Enter key on the selected product, up to the server's tables and back to the screen, over any
  -- network that delivers, and whatever the library does within its laws: either the product is paid,
  -- taken from the slot and in both books, and the message is not "Purchase failed"; or no table has
  -- changed, and the message does not begin with "Dispensing". The user's number is positive and not
  -- the server's admin token, the slot is an `int`, the connection of the database is idle before, and
  -- the numbers of the tables fit an `int`.
  pub do_buy-Honest :
      (a : App) (w : curl.World)
      → selected_product a ≡ some p
      → IsInt p.slot_id
      → laws.view (link.connection w) ≡ idle t fk
      → InRange t
      → let (a', w') = client_buy curl json gives callocs c a w in Honest a' w'
  unfolding client_buy do_buy client_api buying_here
  do_buy-Honest a w chosen int start range =
      subst
        (λ o.
          let r : App × curl.World = elim o [
            | none ↦ (a, w)
            | some q ↦ buying (client_api curl json gives callocs c) q a w
          ] in
          Honest r.0 r.1)
        (sym chosen) (buying-Honest a w int start range)
