-- ===== src/Wire/Orders.antt =====
-- A purchase and a deposit of the client, over the network, up to the server's tables.
use sshnack.Base.{
  none, ℕ, ◌⊎◌, ◌≡◌, ◌≢◌, ◌≤◌, arith, Bool, false, some, [], length, refl, length-take, ap, ◌∙◌,
}
use sshnack.Base.Int.{ℤ, pos, IsInt}
use sshnack.Base.Text.{Text, codes, str_eq, tokens}
use sshnack.Base.Number.{print_int}
use sshnack.Router.{Request, post}
use sshnack.Router.Laws.{route_of, dispatch-init_router}
use sshnack.Tables.{Tables}
use sshnack.Tables.Range.{InRange}
use sshnack.Sqlite.{Sqlite, IsSqlite, run, Prog}
use sshnack.Services.Common.{idle}
use sshnack.Services.Orders.Laws.{purchase_of}
use sshnack.Config.Laws.{IsUser}
use sshnack.Handlers.{handle_post_purchase, handle_post_deposit, Reply}
use sshnack.Handlers.Send.{sent, orders_status, balance_status}
use sshnack.Handlers.Laws.{
  deposit_of, deposit_meant, purchase_meant, handle_post_purchase-Served,
  handle_post_deposit-Served,
}
use sshnack.Server.{Server, handle_request, carry_out, respond, sending}
use sshnack.Server.Fits.{status_of}
use sshnack.Server.Answers.{handlers_send_whole}
use sshnack.Client.{deposit_body, purchase_body}
use sshnack.Client.Laws.{requests_read}
use sshnack.App.{api_err_network}
use sshnack.Client.Http.{ApiClient, Curl, do_request, options_for, performed}
use sshnack.Client.Calls.{Json, api_purchase, api_deposit}
use sshnack.Wire.{Delivers}
use sshnack.Wire.Told.{Told, status_only_network}
use sshnack.Wire.Post.{post_request, carried_post, posted}

orders_route :
    (server : Server) (c : ApiClient) (body : Text)
    → handle_request server false (some post) (post_request c (codes "/orders") body)
      ≡ sending orders_status (handle_post_purchase (post_request c (codes "/orders") body))
unfolding handle_request carry_out respond route_of tokens str_eq
orders_route server c body =
    rw (dispatch-init_router (post_request c (codes "/orders") body) false) refl

balance_route :
    (server : Server) (c : ApiClient) (body : Text)
    → handle_request server false (some post) (post_request c (codes "/balance") body)
      ≡ sending balance_status (handle_post_deposit (post_request c (codes "/balance") body))
unfolding handle_request carry_out respond route_of tokens str_eq
balance_route server c body =
    rw (dispatch-init_router (post_request c (codes "/balance") body) false) refl

purchase_read :
    (c : ApiClient) (slot_id : ℤ) (t : Tables)
    → IsInt slot_id
    → purchase_meant (post_request c (codes "/orders") (purchase_body slot_id)) t
      ≡ purchase_of c.user_id slot_id t
purchase_read c slot_id t h = rw ((requests_read slot_id slot_id h h).1) refl

deposit_read :
    (c : ApiClient) (amount : ℤ) (t : Tables)
    → IsInt amount
    → deposit_meant (post_request c (codes "/balance") (deposit_body amount)) t
      ≡ deposit_of c.user_id amount t
deposit_read c amount t h = rw ((requests_read amount amount h h).0) refl

-- A transfer that fails, or whose text finds no memory.
abbrev pub NotPerformed : (curl : Curl) → (ℕ → Bool) → ApiClient → Text → Text → curl.World → Type 0
NotPerformed curl gives c path body w =
    performed gives (curl.perform (options_for c (codes "POST") path (some body) false) w).0 ≡ none

module _ (curl : Curl) (json : Json) (gives callocs : ℕ → Bool) (c : ApiClient) (server : Server)
    (e : Sqlite) (laws : IsSqlite e) (link : Delivers curl server e c) (user : IsUser c.user_id)
    (other : print_int c.user_id [] ≢ server.admin_token) where
  -- The server's work on a POST, as the network delivers it.
  delivered_post :
      (status_str : ℕ → Text) (m : Prog Reply) (path body : Text) (w : curl.World)
      → length path ≤ 63
      → length body ≤ 511
      → handle_request server false (some post) (post_request c path body) ≡ sending status_str m
      → let (x, w') = curl.perform (options_for c (codes "POST") path (some body) false) w in
        let (out, d') = run e (sending status_str m) (link.connection w) in
        ((x.succeeds ≡ false)
          × ((link.connection w' ≡ link.connection w) ⊎ (link.connection w' ≡ d')))
        ⊎ ((link.connection w' ≡ d')
            × ((text : Text) × (out ≡ sent text) × (status_of text ≡ some (pos x.status))))
  delivered_post status_str m path body w hp hb route =
      let options = options_for c (codes "POST") path (some body) false in
      let read =
        carried_post c server link.target path body user other (link.target_law path hp) hb in
      let works = ap (λ (r : Request). handle_request server false r.method r) read ∙ route in
      let delivered = link.delivery options w in rw works at delivered

  -- A purchase by the client, over any network that delivers, and whatever the library does within
  -- its laws: API_OK tells that the product is paid, taken from the slot and in both books;
  -- API_ERR_HTTP that nothing has changed; API_ERR_NETWORK leaves it open which of the two it is,
  -- and comes only where the transfer fails or its text finds no memory; and API_ERR_PARSE does not
  -- come. The user's number is positive and not the server's admin token, the
  -- slot is an `int`, the connection of the database is idle before, and the numbers of the tables fit
  -- an `int`.
  pub api_purchase-Told :
      (slot_id : ℤ) (w : curl.World) (t : Tables) (fk : Bool)
      → IsInt slot_id
      → laws.view (link.connection w) ≡ idle t fk
      → InRange t
      → let (st, w') = api_purchase curl json gives callocs c slot_id w in
        Told (purchase_of c.user_id slot_id t) t fk st (laws.view (link.connection w'))
        × (st ≡ api_err_network
            → NotPerformed curl gives c (codes "/orders") (purchase_body slot_id) w)
  unfolding api_purchase do_request
  api_purchase-Told slot_id w t fk h start range =
      let body = purchase_body slot_id in
      let req = post_request c (codes "/orders") body in
      let d = link.connection w in
      let options = options_for c (codes "POST") (codes "/orders") (some body) false in
      (
        posted e laws d (link.connection (curl.perform options w).1) t fk orders_status
            (handle_post_purchase req) (purchase_of c.user_id slot_id t) gives
            (curl.perform options w).0 start (handlers_send_whole e d req).5
            (rw (← purchase_read c slot_id t h)
              (handle_post_purchase-Served e laws d t fk req start range))
            (delivered_post orders_status (handle_post_purchase req) (codes "/orders") body w
              (omega arith) (omega (arith, length-take 52 (print_int slot_id (codes "}"))))
              (orders_route server c body)),
        status_only_network (performed gives (curl.perform options w).0),
      )

  -- A deposit by the client, likewise: API_OK tells that the amount is on the user's balance and in
  -- the books, API_ERR_HTTP that nothing has changed, which is so for an amount that is not positive,
  -- and API_ERR_NETWORK, which comes only where the transfer fails or its text finds no memory, leaves
  -- it open. The user's number is positive and not the server's admin
  -- token, the amount is an `int`, and the connection of the database is idle before.
  pub api_deposit-Told :
      (amount : ℤ) (w : curl.World) (t : Tables) (fk : Bool)
      → IsInt amount
      → laws.view (link.connection w) ≡ idle t fk
      → let (st, w') = api_deposit curl json gives callocs c amount w in
        Told (deposit_of c.user_id amount t) t fk st (laws.view (link.connection w'))
        × (st ≡ api_err_network
            → NotPerformed curl gives c (codes "/balance") (deposit_body amount) w)
  unfolding api_deposit do_request
  api_deposit-Told amount w t fk h start =
      let body = deposit_body amount in
      let req = post_request c (codes "/balance") body in
      let d = link.connection w in
      let options = options_for c (codes "POST") (codes "/balance") (some body) false in
      (
        posted e laws d (link.connection (curl.perform options w).1) t fk balance_status
            (handle_post_deposit req) (deposit_of c.user_id amount t) gives
            (curl.perform options w).0 start (handlers_send_whole e d req).4
            (rw (← deposit_read c amount t h) (handle_post_deposit-Served e laws d t fk req start))
            (delivered_post balance_status (handle_post_deposit req) (codes "/balance") body w
              (omega arith) (omega (arith, length-take 50 (print_int amount (codes "}"))))
              (balance_route server c body)),
        status_only_network (performed gives (curl.perform options w).0),
      )
