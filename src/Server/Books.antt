-- ===== src/Server/Books.antt =====
-- The books under whatever bytes arrive.
use sshnack.Base.{
  Option-cases, if◌then◌else◌, ◌≡◌, Bool, Option, none, some, [], ◌∷◌, Bool-cases, inl, inr,
}
use sshnack.Base.Int.{ℤ}
use sshnack.Base.Text.{Text, codes}
use sshnack.Base.Number.{scan_int}
use sshnack.Router.{
  Request, Method, HandlerFn, Outcome, not_found, forbidden, method_not_allowed, call,
}
use sshnack.Tables.{Tables}
use sshnack.Tables.Range.{InRange}
use sshnack.Sqlite.{Prog, ret, ◌>>=◌, ◌>>◌, Sqlite, IsSqlite, run}
use sshnack.Services.Common.{idle}
use sshnack.Ledger.{IsBalanced, ServiceCall, service}
use sshnack.Ledger.Steps.{Sound, Sound-at, run-ret, step-Sound}
use sshnack.Auth.{AuthRole}
use sshnack.Services.Balance.{balance_get, balance_deposit, balance_reset}
use sshnack.Services.Orders.{orders_purchase}
use sshnack.Services.Products.{product_restock, product_update_price}
use sshnack.Services.Products.Listing.{products_list}
use sshnack.Services.Users.{users_lookup}
use sshnack.Handlers.Stock.{handle_get_stock}
use sshnack.Handlers.{
  Reply, is_auth_none, is_auth_admin, answer_to, scan_fingerprint, unauthorized, forbidden_reply,
  invalid_path, handle_post_restock, handle_post_update_price, handle_get_balance,
  handle_delete_balance, handle_post_deposit, handle_post_purchase, handle_lookup_user,
}
use sshnack.Handlers.Laws.{run-map}
use sshnack.Server.{Server, respond, carry_out, handle_request, handle_client}

module _ (e : Sqlite) (laws : IsSqlite e) (d : e.Db) (t : Tables) (fk : Bool)
    (start : laws.view d ≡ idle t fk) (range : InRange t) (balanced : IsBalanced t) where
  -- A program that leaves balanced books and an idle connection.
  abbrev Keeps : {A : Type 0} → Prog A → Type 0
  Keeps m = Sound fk (laws.view (run e m d).1)

  ret-Keeps : {A : Type 0} (a : A) → Keeps (ret a)
  unfolding run
  ret-Keeps a = Sound-at fk t start balanced

  map-Keeps : {A B : Type 0} (g : A → B) (m : Prog A) → Keeps m → Keeps (m >>= λ a. ret (g a))
  map-Keeps g m h = rw (run-map e g m d) h

  service-Keeps : {A : Type 0} (m : Prog A) → Keeps (m >> ret tt) → Keeps m
  service-Keeps m h = rw (run-ret e m d) at h

  -- A service with a number of the request, and a reply by its result.
  number-Keeps :
      {A B : Type 0} (bad : B) (g : A → B) (m : ℤ → Prog A) (n : Option ℤ)
      → ((k : ℤ) → Keeps (m k))
      → Keeps (elim n [ none ↦ ret bad | some k ↦ m k >>= λ a. ret (g a) ])
  number-Keeps bad g m none h = ret-Keeps bad
  number-Keeps bad g m (some k) h = map-Keeps g (m k) (h k)

  -- A service call that the handlers make.
  call-Keeps : (c : ServiceCall) → Keeps (service c)
  call-Keeps c = step-Sound e laws d t fk c start range balanced

  restock-Keeps : (req : Request) → Keeps (handle_post_restock req)
  unfolding handle_post_restock
  restock-Keeps req = elim (Bool-cases (is_auth_admin req.auth.role)) [
    | inr n ↦ rw n (ret-Keeps forbidden_reply)
    | inl y ↦ elim (Option-cases (scan_int (codes "/stock/") req.path)) [
      | inl s ↦ rw (y, s) (ret-Keeps invalid_path)
      | inr (sid, s) ↦
          rw (y, s)
            (number-Keeps _ _ (product_restock sid) (scan_int (codes "{\"qty\":") req.body)
              λ k. service-Keeps (product_restock sid k) (call-Keeps (ServiceCall.restock sid k)))
    ]
  ]

  price-Keeps : (req : Request) → Keeps (handle_post_update_price req)
  unfolding handle_post_update_price
  price-Keeps req = elim (Bool-cases (is_auth_admin req.auth.role)) [
    | inr n ↦ rw n (ret-Keeps forbidden_reply)
    | inl y ↦ elim (Option-cases (scan_int (codes "/items/") req.path)) [
      | inl s ↦ rw (y, s) (ret-Keeps invalid_path)
      | inr (iid, s) ↦
          rw (y, s)
            (number-Keeps _ _ (product_update_price iid)
              (scan_int (codes "{\"price_gr\":") req.body)
              λ k.
                service-Keeps (product_update_price iid k)
                  (call-Keeps (ServiceCall.update_price iid k)))
    ]
  ]

  -- A handler that needs a user first.
  user-Keeps :
      (role : AuthRole) (m : Prog Reply)
      → Keeps m
      → Keeps (if is_auth_none role then ret unauthorized else m)
  user-Keeps role m h = elim (Bool-cases (is_auth_none role)) [
    | inl y ↦ rw y (ret-Keeps unauthorized)
    | inr n ↦ rw n h
  ]

  balance-Keeps :
      (req : Request) → Keeps (handle_get_balance req) × Keeps (handle_delete_balance req)
  unfolding handle_get_balance handle_delete_balance
  balance-Keeps req =
      let uid = req.auth.user_id in
      (
        user-Keeps req.auth.role _ (
            map-Keeps _ (balance_get uid)
              (service-Keeps (balance_get uid) (call-Keeps (ServiceCall.get_balance uid)))),
        user-Keeps req.auth.role _ (
            map-Keeps _ (balance_reset uid)
              (service-Keeps (balance_reset uid) (call-Keeps (ServiceCall.reset uid)))),
      )

  money-Keeps : (req : Request) → Keeps (handle_post_deposit req) × Keeps (handle_post_purchase req)
  unfolding handle_post_deposit handle_post_purchase
  money-Keeps req =
      let uid = req.auth.user_id in
      (
        user-Keeps req.auth.role _ (
            number-Keeps _ _ (balance_deposit uid) (scan_int (codes "{\"amount_gr\":") req.body)
              λ k. service-Keeps (balance_deposit uid k) (call-Keeps (ServiceCall.deposit uid k))),
        user-Keeps req.auth.role _ (
            number-Keeps _ _ (orders_purchase uid) (scan_int (codes "{\"slot_id\":") req.body)
              λ k. service-Keeps (orders_purchase uid k) (call-Keeps (ServiceCall.purchase uid k))),
      )

  lookup-Keeps : (fp : Option Text) → Keeps (answer_to fp)
  unfolding answer_to
  lookup-Keeps none = ret-Keeps _
  lookup-Keeps (some fp) =
      map-Keeps _ (users_lookup fp)
        (service-Keeps (users_lookup fp) (call-Keeps (ServiceCall.lookup fp)))

  respond-Keeps : (server : Server) (fn : HandlerFn) (req : Request) → Keeps (respond server fn req)
  unfolding respond handle_lookup_user handle_get_stock
  respond-Keeps server HandlerFn.handle_get_stock req =
      map-Keeps _ (products_list server.gives)
        (service-Keeps (products_list server.gives) (call-Keeps (ServiceCall.list server.gives)))
  respond-Keeps server HandlerFn.handle_post_restock req = map-Keeps _ _ (restock-Keeps req)
  respond-Keeps server HandlerFn.handle_get_balance req = map-Keeps _ _ (balance-Keeps req).0
  respond-Keeps server HandlerFn.handle_post_deposit req = map-Keeps _ _ (money-Keeps req).0
  respond-Keeps server HandlerFn.handle_delete_balance req = map-Keeps _ _ (balance-Keeps req).1
  respond-Keeps server HandlerFn.handle_post_purchase req = map-Keeps _ _ (money-Keeps req).1
  respond-Keeps server HandlerFn.handle_post_update_price req = map-Keeps _ _ (price-Keeps req)
  respond-Keeps server HandlerFn.handle_get_slow req = ret-Keeps _
  respond-Keeps server HandlerFn.handle_lookup_user req =
      map-Keeps _ _ (lookup-Keeps (scan_fingerprint req.body))

  carry_out-Keeps : (server : Server) (req : Request) (o : Outcome) → Keeps (carry_out server req o)
  unfolding carry_out
  carry_out-Keeps server req not_found = ret-Keeps _
  carry_out-Keeps server req forbidden = ret-Keeps _
  carry_out-Keeps server req method_not_allowed = ret-Keeps _
  carry_out-Keeps server req (call fn) = respond-Keeps server fn req

  handle_request-Keeps :
      (server : Server) (internal : Bool) (method : Option Method) (req : Request)
      → Keeps (handle_request server internal method req)
  unfolding handle_request
  handle_request-Keeps server internal none req = ret-Keeps _
  handle_request-Keeps server internal (some method) req = carry_out-Keeps server req _

  -- Whatever bytes a connection brings, on either port, and whatever the library does within its
  -- laws: the books are balanced afterwards, no transaction is open and no statement is pending. The
  -- books are balanced and the connection is idle before, and the numbers of the tables fit an `int`.
  pub handle_client-Sound :
      (server : Server) (internal : Bool) (bytes : Text)
      → Sound fk (laws.view (run e (handle_client server internal bytes) d).1)
  unfolding handle_client
  handle_client-Sound server internal [] = ret-Keeps none
  handle_client-Sound server internal (b ∷ bytes) =
      map-Keeps some _ (handle_request-Keeps server internal _ _)
