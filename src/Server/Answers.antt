-- ===== src/Server/Answers.antt =====
-- Every handler but that of the stock: its reply is sent whole, with its status.
use sshnack.Base.{
  ℕ, Option, none, some, inl, inr, arith, if◌then◌else◌, not, Bool-cases, Option-cases,
}
use sshnack.Base.Int.{ℤ}
use sshnack.Base.Text.{Text, codes}
use sshnack.Base.Number.{scan_int}
use sshnack.Auth.{AuthRole}
use sshnack.Router.{Request}
use sshnack.Sqlite.{Prog, ret, ◌>>=◌, Sqlite, run}
use sshnack.Handlers.{
  Reply, answer, lookup_reply, is_auth_none, is_auth_admin, answer_to, scan_fingerprint,
  unauthorized, forbidden_reply, invalid_path, handle_post_restock, handle_post_update_price,
  handle_get_balance, handle_delete_balance, handle_post_deposit, handle_post_purchase,
  handle_lookup_user,
}
use sshnack.Handlers.Laws.{run-map}
use sshnack.Handlers.Send.{send_json, admin_status, balance_status, orders_status, users_status}
use sshnack.Server.{sending}
use sshnack.Server.Fits.{
  Fits, Whole, Knows, Fits-Whole, answer-Fits, balance_reply-Fits, lookup_reply-Fits, admin-Knows,
  balance-Knows, orders-Knows, users-Knows,
}

module _ (e : Sqlite) (d : e.Db) where
  -- A program whose reply fits.
  abbrev Replies : (ℕ → Text) → Prog Reply → Type 0
  Replies status_str m = Fits status_str (run e m d).0

  ret-Replies : (status_str : ℕ → Text) (r : Reply) → Fits status_str r → Replies status_str (ret r)
  unfolding run
  ret-Replies status_str r h = h

  map-Replies :
      (status_str : ℕ → Text) {A : Type 0} (g : A → Reply) (m : Prog A)
      → ((a : A) → Fits status_str (g a))
      → Replies status_str (m >>= λ a. ret (g a))
  map-Replies status_str g m h = rw (run-map e g m d) (h (run e m d).0)

  -- A service with a number of the request.
  number-Replies :
      (status_str : ℕ → Text) (bad refused : Reply) (m : ℤ → Prog ℤ) (n : Option ℤ)
      → Knows status_str 200
      → Fits status_str bad
      → Fits status_str refused
      → Replies status_str
          (elim n [ none ↦ ret bad | some k ↦ m k >>= λ rc. ret (answer refused rc) ])
  number-Replies status_str bad refused m none k hb hr = ret-Replies status_str bad hb
  number-Replies status_str bad refused m (some n) k hb hr =
      map-Replies status_str (answer refused) (m n) λ rc. answer-Fits status_str refused rc k hr

  -- A handler that needs a user, or the admin, first.
  user-Replies :
      (status_str : ℕ → Text) (role : AuthRole) (m : Prog Reply)
      → Knows status_str 401
      → Replies status_str m
      → Replies status_str (if is_auth_none role then ret unauthorized else m)
  user-Replies status_str role m k h = elim (Bool-cases (is_auth_none role)) [
    | inl y ↦ rw y (ret-Replies status_str unauthorized (k, omega arith))
    | inr n ↦ rw n h
  ]

  admin-Replies :
      (role : AuthRole) (path : Option ℤ) (m : ℤ → Prog Reply)
      → ((k : ℤ) → Replies admin_status (m k))
      → Replies admin_status (
          if not (is_auth_admin role)
          then ret forbidden_reply
          else elim path [ none ↦ ret invalid_path | some k ↦ m k ])
  admin-Replies role path m h = elim (Bool-cases (is_auth_admin role)) [
    | inr n ↦ rw n (ret-Replies admin_status forbidden_reply (admin-Knows.2, omega arith))
    | inl y ↦ elim (Option-cases path) [
      | inl e ↦ rw (y, e) (ret-Replies admin_status invalid_path (admin-Knows.1, omega arith))
      | inr (k, e) ↦ rw (y, e) (h k)
    ]
  ]

  lookup-Replies : (fp : Option Text) → Replies users_status (answer_to fp)
  unfolding answer_to
  lookup-Replies none = ret-Replies users_status _ (users-Knows.1, omega arith)
  lookup-Replies (some fp) = map-Replies users_status lookup_reply _ lookup_reply-Fits

  -- What each handler sends, by its file.
  sending-Whole :
      (status_str : ℕ → Text) (m : Prog Reply)
      → Replies status_str m
      → Whole status_str (run e m d).0 (run e (sending status_str m) d).0
  sending-Whole status_str m h =
      rw (run-map e (send_json status_str 512) m d) (Fits-Whole status_str (run e m d).0 h)

  abbrev pub SendsWhole : (ℕ → Text) → Prog Reply → Type 0
  SendsWhole status_str m = Whole status_str (run e m d).0 (run e (sending status_str m) d).0

  admin_handlers_whole :
      (req : Request)
      → SendsWhole admin_status (handle_post_restock req)
        × SendsWhole admin_status (handle_post_update_price req)
  unfolding handle_post_restock handle_post_update_price
  admin_handlers_whole req = (
    sending-Whole admin_status (handle_post_restock req) (
        admin-Replies req.auth.role (scan_int (codes "/stock/") req.path) _ λ sid.
          number-Replies admin_status _ _ _ (scan_int (codes "{\"qty\":") req.body) admin-Knows.0
            (admin-Knows.1, omega arith) (admin-Knows.3, omega arith)),
    sending-Whole admin_status (handle_post_update_price req) (
        admin-Replies req.auth.role (scan_int (codes "/items/") req.path) _ λ iid.
          number-Replies admin_status _ _ _ (scan_int (codes "{\"price_gr\":") req.body)
            admin-Knows.0 (admin-Knows.1, omega arith) (admin-Knows.3, omega arith)),
  )

  user_handlers_whole :
      (req : Request)
      → SendsWhole balance_status (handle_get_balance req)
        × SendsWhole balance_status (handle_delete_balance req)
        × SendsWhole balance_status (handle_post_deposit req)
        × SendsWhole orders_status (handle_post_purchase req)
  unfolding handle_get_balance handle_delete_balance handle_post_deposit handle_post_purchase
  user_handlers_whole req = (
    sending-Whole balance_status (handle_get_balance req) (
        user-Replies balance_status req.auth.role _ balance-Knows.2
          (map-Replies balance_status _ _ (balance_reply-Fits (codes "{\"balance_gr\":")))),
    sending-Whole balance_status (handle_delete_balance req) (
        user-Replies balance_status req.auth.role _ balance-Knows.2
          (map-Replies balance_status _ _ (balance_reply-Fits (codes "{\"refund_gr\":")))),
    sending-Whole balance_status (handle_post_deposit req) (
        user-Replies balance_status req.auth.role _ balance-Knows.2 (
          number-Replies balance_status _ _ _ (scan_int (codes "{\"amount_gr\":") req.body)
            balance-Knows.0 (balance-Knows.1, omega arith) (balance-Knows.4, omega arith))),
    sending-Whole orders_status (handle_post_purchase req) (
        user-Replies orders_status req.auth.role _ orders-Knows.2 (
          number-Replies orders_status _ _ _ (scan_int (codes "{\"slot_id\":") req.body)
            orders-Knows.0 (orders-Knows.1, omega arith) (orders-Knows.3, omega arith))),
  )

  -- Whatever the request and whatever the library does: what each handler of balances, orders, users
  -- and the admin sends is its reply, whole and with a status line that shows the reply's status, which
  -- is 200 or at least 400. The text fits the buffer of 512 bytes.
  pub handlers_send_whole :
      (req : Request)
      → SendsWhole admin_status (handle_post_restock req)
        × SendsWhole admin_status (handle_post_update_price req)
        × SendsWhole balance_status (handle_get_balance req)
        × SendsWhole balance_status (handle_delete_balance req)
        × SendsWhole balance_status (handle_post_deposit req)
        × SendsWhole orders_status (handle_post_purchase req)
        × SendsWhole users_status (handle_lookup_user req)
  unfolding handle_lookup_user
  handlers_send_whole req =
      let (restock, price) = admin_handlers_whole req in
      let (get, delete, deposit, purchase) = user_handlers_whole req in
      (
        restock,
        price,
        get,
        delete,
        deposit,
        purchase,
        sending-Whole users_status (handle_lookup_user req)
            (lookup-Replies (scan_fingerprint req.body)),
      )
