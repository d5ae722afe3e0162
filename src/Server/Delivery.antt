-- ===== src/Server/Delivery.antt =====
-- One whole answer for every connection.
use sshnack.Base.{ℕ, ◌≤◌, ◌≡◌, refl, Bool, Option, none, some, List, ◌∷◌, inl, inr, length, ap}
use sshnack.Base.Int.{pos, to_int32}
use sshnack.Base.Text.{Text}
use sshnack.Base.Number.{scan_int, strip_prefix, number, unsigned, take_digits, skip_spaces}
use sshnack.Router.{
  Request, Method, HandlerFn, Outcome, not_found, forbidden, method_not_allowed, call,
}
use sshnack.Tables.{Tables}
use sshnack.Sqlite.{Prog, ret, Sqlite, IsSqlite, run}
use sshnack.Services.Common.{idle}
use sshnack.Services.Products.{Product}
use sshnack.Handlers.{
  Reply, handle_lookup_user, handle_post_restock, handle_post_update_price, handle_get_balance,
  handle_delete_balance, handle_post_deposit, handle_post_purchase,
}
use sshnack.Handlers.Laws.{run-map}
use sshnack.Handlers.Send.{
  Sent, sent, message, products_status, admin_status, balance_status, orders_status, users_status,
}
use sshnack.Handlers.Stock.{handle_get_stock, handle_get_slow}
use sshnack.Handlers.Stock.Laws.{IsTidy, handle_get_stock_lem, stock_error, stock_listed}
use sshnack.Server.{Server, sending, respond, carry_out, handle_request, handle_client}
use sshnack.Server.Fits.{status_of, Whole}
use sshnack.Server.Answers.{handlers_send_whole}

-- One whole message, whose status line shows a number.
abbrev pub Answered : Sent → Type 0
Answered out = (text : Text) × (n : ℕ) × (out ≡ sent text) × (status_of text ≡ some (pos n))

stock-status :
    (body : Text)
    → (status_of (message (products_status 200) body) ≡ some (pos 200))
      × (status_of (message (products_status 500) body) ≡ some (pos 500))
unfolding message products_status scan_int strip_prefix number unsigned take_digits skip_spaces
    to_int32
stock-status body = (refl, refl)

Answered-error : Answered stock_error
Answered-error = (_, 500, refl, (stock-status _).1)

Answered-listed : (ps : List Product) → Answered (stock_listed ps)
Answered-listed ps = (_, 200, refl, (stock-status _).0)

module _ (e : Sqlite) (laws : IsSqlite e) (d : e.Db) (t : Tables) (fk : Bool)
    (start : laws.view d ≡ idle t fk) (tidy : IsTidy t) (few : length t.stock ≤ 60) where
  abbrev Answers : Prog Sent → Type 0
  Answers m = Answered (run e m d).0

  ret-Answers : (text : Text) (n : ℕ) → status_of text ≡ some (pos n) → Answers (ret (sent text))
  unfolding run
  ret-Answers text n h = (text, n, refl, h)

  sending-Answers :
      (status_str : ℕ → Text) (m : Prog Reply)
      → Whole status_str (run e m d).0 (run e (sending status_str m) d).0
      → Answers (sending status_str m)
  sending-Answers status_str m h =
      let r = (run e m d).0 in (message (status_str r.status) r.body, r.status, h.0, h.1)

  stock-Answers : (server : Server) → Answers (handle_get_stock server.gives server.gives_body)
  stock-Answers server =
      let (same, ends) =
        handle_get_stock_lem e laws d t fk server.gives server.gives_body start tidy few in
      elim ends [
        | inl fails ↦ rw fails Answered-error
        | inr (ps, lists, reorders, ascends) ↦ rw lists (Answered-listed ps)
      ]

  respond-Answers :
      (server : Server) (fn : HandlerFn) (req : Request) → Answers (respond server fn req)
  unfolding respond handle_get_slow scan_int strip_prefix number unsigned take_digits skip_spaces
      to_int32
  respond-Answers server HandlerFn.handle_get_stock req = stock-Answers server
  respond-Answers server HandlerFn.handle_post_restock req =
      sending-Answers admin_status (handle_post_restock req) (handlers_send_whole e d req).0
  respond-Answers server HandlerFn.handle_post_update_price req =
      sending-Answers admin_status (handle_post_update_price req) (handlers_send_whole e d req).1
  respond-Answers server HandlerFn.handle_get_balance req =
      sending-Answers balance_status (handle_get_balance req) (handlers_send_whole e d req).2
  respond-Answers server HandlerFn.handle_delete_balance req =
      sending-Answers balance_status (handle_delete_balance req) (handlers_send_whole e d req).3
  respond-Answers server HandlerFn.handle_post_deposit req =
      sending-Answers balance_status (handle_post_deposit req) (handlers_send_whole e d req).4
  respond-Answers server HandlerFn.handle_post_purchase req =
      sending-Answers orders_status (handle_post_purchase req) (handlers_send_whole e d req).5
  respond-Answers server HandlerFn.handle_get_slow req = ret-Answers _ 200 refl
  respond-Answers server HandlerFn.handle_lookup_user req =
      sending-Answers users_status (handle_lookup_user req) (handlers_send_whole e d req).6

  carry_out-Answers :
      (server : Server) (req : Request) (o : Outcome) → Answers (carry_out server req o)
  unfolding carry_out scan_int strip_prefix number unsigned take_digits skip_spaces to_int32
  carry_out-Answers server req not_found = ret-Answers _ 404 refl
  carry_out-Answers server req forbidden = ret-Answers _ 403 refl
  carry_out-Answers server req method_not_allowed = ret-Answers _ 405 refl
  carry_out-Answers server req (call fn) = respond-Answers server fn req

  handle_request-Answers :
      (server : Server) (internal : Bool) (method : Option Method) (req : Request)
      → Answers (handle_request server internal method req)
  unfolding handle_request scan_int strip_prefix number unsigned take_digits skip_spaces to_int32
  handle_request-Answers server internal none req = ret-Answers _ 400 refl
  handle_request-Answers server internal (some method) req = carry_out-Answers server req _

  -- Whatever bytes a connection brings, on either port, whatever the library does within its laws and
  -- whichever allocation of the list of the stock fails: where at least one byte comes, one whole
  -- message is sent, whose status line shows a number. The connection of the database is idle before,
  -- there are at most 60 slots, and the numbers of slots, items, prices and quantities are from 0 to
  -- 99999.
  pub handle_client-Answered :
      (server : Server) (internal : Bool) (b : ℕ) (bytes : Text)
      → (out : Sent) × ((run e (handle_client server internal (b ∷ bytes)) d).0 ≡ some out)
        × Answered out
  unfolding handle_client
  handle_client-Answered server internal b bytes =
      (_, ap (λ r. r.0) (run-map e some _ d), handle_request-Answers server internal _ _)
