-- ===== src/Server/Guarded.antt =====
-- The tables after a request on the public port, whatever its token is.
use sshnack.Base.{
  ◌≡◌, ◌≢◌, inl, inr, refl, ap, Bool, false, Option, none, some, [], ◌∷◌, take, Bool-cases,
}
use sshnack.Base.Int.{ℤ}
use sshnack.Base.Text.{Text}
use sshnack.Auth.{AuthRole}
use sshnack.Api.{parse_request}
use sshnack.Router.{
  Request, Method, HandlerFn, Outcome, not_found, forbidden, method_not_allowed, call,
  handle_lookup_user,
}
use sshnack.Router.Laws.{dispatch_public}
use sshnack.Tables.{Tables}
use sshnack.Tables.Range.{InRange}
use sshnack.Sqlite.{Prog, ret, ◌>>=◌, Sqlite, IsSqlite, run, View}
use sshnack.Services.Common.{idle}
use sshnack.Services.Balance.{balance_get, balance_reset}
use sshnack.Services.Balance.Laws.{balance_get_reads, balance_reset_atomic}
use sshnack.Services.Products.Listing.{products_list}
use sshnack.Services.Products.Listing.Laws.{products_list-Lists}
use sshnack.Handlers.Stock.{handle_get_stock}
use sshnack.Handlers.{
  Reply, is_auth_none, unauthorized, handle_post_restock, handle_post_update_price,
  handle_get_balance, handle_delete_balance, handle_post_deposit, handle_post_purchase,
}
use sshnack.Handlers.Laws.{
  Served, run-map, deposit_meant, purchase_meant, restock_meant, reprice_meant,
  handle_post_deposit-Served, handle_post_purchase-Served, handle_post_restock-Served,
  handle_post_update_price-Served,
}
use sshnack.Server.{Server, respond, carry_out, handle_request, handle_client, c_string}
use sshnack.Server.Access.{
  Allowed, Allowed-refl, known-Allowed, deposit_meant-Allowed, purchase_meant-Allowed,
  restock_meant-Allowed, reprice_meant-Allowed, reset_of-Spends,
}

-- An idle connection, with tables that the role and the number of a request may have left.
abbrev pub Guarded : AuthRole → ℤ → Tables → Bool → View → Type 0
Guarded role uid t fk v = (after : Tables) × (v ≡ idle after fk) × Allowed role uid t after

Served-Guarded :
    (role : AuthRole) (uid : ℤ) (t : Tables) (fk : Bool) (o : Option Tables) (r : Reply) (v : View)
    → ((after : Tables) → o ≡ some after → Allowed role uid t after)
    → Served o t fk r v
    → Guarded role uid t fk v
Served-Guarded role uid t fk none r v h s = (t, s.1, Allowed-refl role uid t)
Served-Guarded role uid t fk (some after) r v h (inl s) = (after, s.1, h after refl)
Served-Guarded role uid t fk (some after) r v h (inr s) = (t, s.1, Allowed-refl role uid t)

module _ (e : Sqlite) (laws : IsSqlite e) (d : e.Db) (t : Tables) (fk : Bool)
    (start : laws.view d ≡ idle t fk) (range : InRange t) (req : Request) where
  abbrev Guards : {A : Type 0} → Prog A → Type 0
  Guards m = Guarded req.auth.role req.auth.user_id t fk (laws.view (run e m d).1)

  kept : {v : View} → v ≡ idle t fk → Guarded req.auth.role req.auth.user_id t fk v
  kept h = (t, h, Allowed-refl req.auth.role req.auth.user_id t)

  ret-Guards : {A : Type 0} (a : A) → Guards (ret a)
  unfolding run
  ret-Guards a = kept start

  map-Guards : {A B : Type 0} (g : A → B) (m : Prog A) → Guards m → Guards (m >>= λ a. ret (g a))
  map-Guards g m h = rw (run-map e g m d) h

  Served-Guards :
      (m : Prog Reply) (o : Option Tables)
      → ((after : Tables) → o ≡ some after → Allowed req.auth.role req.auth.user_id t after)
      → Served o t fk (run e m d).0 (laws.view (run e m d).1)
      → Guards m
  Served-Guards m o h s = Served-Guarded req.auth.role req.auth.user_id t fk o _ _ h s

  balance-Guards : Guards (handle_get_balance req)
  unfolding handle_get_balance
  balance-Guards = elim (Bool-cases (is_auth_none req.auth.role)) [
    | inl y ↦ rw y (ret-Guards unauthorized)
    | inr n ↦ rw n (
        map-Guards _ (balance_get req.auth.user_id)
          (elim (balance_get_reads e laws d t fk req.auth.user_id start range) [
            | inl read ↦ kept read.1
            | inr fails ↦ kept fails.1
          ]))
  ]

  reset-Guards : Guards (handle_delete_balance req)
  unfolding handle_delete_balance
  reset-Guards = elim (Bool-cases (is_auth_none req.auth.role)) [
    | inl y ↦ rw y (ret-Guards unauthorized)
    | inr n ↦
        let uid = req.auth.user_id in
        rw n (
          map-Guards _ (balance_reset uid)
            (elim (balance_reset_atomic e laws d t fk uid start range) [
              | inl paid ↦
                  (_, paid.1, known-Allowed req.auth.role uid t _ n (reset_of-Spends uid t))
              | inr fails ↦ kept fails.1
            ]))
  ]

  stock-Guards : (server : Server) → Guards (handle_get_stock server.gives server.gives_body)
  unfolding handle_get_stock
  stock-Guards server =
      map-Guards _ (products_list server.gives)
        (kept (products_list-Lists e laws d t fk server.gives start).0)

  respond-Guards :
      (server : Server) (fn : HandlerFn) → fn ≢ handle_lookup_user → Guards (respond server fn req)
  unfolding respond
  respond-Guards server HandlerFn.handle_get_stock h = stock-Guards server
  respond-Guards server HandlerFn.handle_post_restock h = map-Guards _ _ (
      Served-Guards (handle_post_restock req) (restock_meant req t) (restock_meant-Allowed req t)
        (handle_post_restock-Served e laws d t fk req start range))
  respond-Guards server HandlerFn.handle_get_balance h = map-Guards _ _ balance-Guards
  respond-Guards server HandlerFn.handle_post_deposit h = map-Guards _ _ (
      Served-Guards (handle_post_deposit req) (deposit_meant req t) (deposit_meant-Allowed req t)
        (handle_post_deposit-Served e laws d t fk req start))
  respond-Guards server HandlerFn.handle_delete_balance h = map-Guards _ _ reset-Guards
  respond-Guards server HandlerFn.handle_post_purchase h = map-Guards _ _ (
      Served-Guards (handle_post_purchase req) (purchase_meant req t) (purchase_meant-Allowed req t)
        (handle_post_purchase-Served e laws d t fk req start range))
  respond-Guards server HandlerFn.handle_post_update_price h = map-Guards _ _ (
      Served-Guards (handle_post_update_price req) (reprice_meant req t)
        (reprice_meant-Allowed req t) (handle_post_update_price-Served e laws d t fk req start))
  respond-Guards server HandlerFn.handle_get_slow h = ret-Guards _
  respond-Guards server HandlerFn.handle_lookup_user h = absurd (h refl)

  carry_out-Guards :
      (server : Server) (o : Outcome)
      → o ≢ call handle_lookup_user
      → Guards (carry_out server req o)
  unfolding carry_out
  carry_out-Guards server not_found h = ret-Guards _
  carry_out-Guards server forbidden h = ret-Guards _
  carry_out-Guards server method_not_allowed h = ret-Guards _
  carry_out-Guards server (call fn) h = respond-Guards server fn (λ e'. h (ap call e'))

  handle_request-Guards :
      (server : Server) (method : Option Method) → Guards (handle_request server false method req)
  unfolding handle_request
  handle_request-Guards server none = ret-Guards _
  handle_request-Guards server (some method) = carry_out-Guards server _ (dispatch_public req)

module _ (e : Sqlite) (laws : IsSqlite e) (d : e.Db) (t : Tables) (fk : Bool) where
  -- Whatever bytes come in on the public port and whatever the library does within its laws: with a
  -- token that stands for nobody no table changes; with one of a user no row of another user and no
  -- item changes, and the stock changes at most as by taking one piece from a slot number; with the
  -- admin token, which has the number 0, no row of a user with another number changes. The connection
  -- is idle before and afterwards, and the numbers of the tables fit an `int`.
  pub handle_client-Guarded :
      (server : Server) (bytes : Text)
      → laws.view d ≡ idle t fk
      → InRange t
      → let auth = (parse_request server.admin_token (c_string (take 2047 bytes))).auth in
        let (out, d') = run e (handle_client server false bytes) d in
        Guarded auth.role auth.user_id t fk (laws.view d')
  unfolding handle_client
  handle_client-Guarded server [] start range =
      ret-Guards e laws d t fk start range (parse_request server.admin_token (c_string [])) none
  handle_client-Guarded server (b ∷ bytes) start range =
      let req = parse_request server.admin_token (c_string (take 2047 (b ∷ bytes))) in
      map-Guards e laws d t fk start range req some _
        (handle_request-Guards e laws d t fk start range req server _)
