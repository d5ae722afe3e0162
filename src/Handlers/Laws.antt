-- ===== src/Handlers/Laws.antt =====
-- The handlers' replies against what the services do to the tables.
use sshnack.Base.{
  ◌≡◌, ◌≢◌, ◌⊎◌, inl, inr, refl, Bool, Option, none, some, arith, if◌then◌else◌, Bool-cases,
  Option-cases,
}
use sshnack.Base.Int.{ℤ, pos, leb_ℤ}
use sshnack.Base.Text.{codes}
use sshnack.Base.Number.{scan_int}
use sshnack.Router.{Request}
use sshnack.Tables.{Tables}
use sshnack.Tables.Range.{InRange}
use sshnack.Sqlite.{
  View, Prog, ret, exec, prepare, step, fetch, finalize, ◌>>=◌, Sqlite, IsSqlite, run,
}
use sshnack.Services.Common.{Commits, idle}
use sshnack.Services.Balance.Laws.{
  deposit_row, credited, log_row, balance_deposit_atomic, balance_deposit_nonpositive,
}
use sshnack.Services.Orders.Laws.{orders_purchase_atomic, purchase_of}
use sshnack.Services.Products.Laws.{
  product_restock_atomic, product_update_price_atomic, restock_of, reprice_of,
}
use sshnack.Handlers.{
  json, Reply, answer, unauthorized, forbidden_reply, handle_post_restock, handle_post_update_price,
  handle_post_deposit, handle_post_purchase, is_auth_none, is_auth_admin, balance_deposit,
  internal_error, orders_purchase, invalid_path, product_restock, product_update_price,
}

-- A reply of 200 tells that the tables are those that are meant; with every other reply they are as
-- they were. Where nothing is meant to be done, the reply is not 200.
abbrev pub Served : Option Tables → Tables → Bool → Reply → View → Type 0
Served none before fk r v = (r.status ≢ 200) × (v ≡ idle before fk)
Served (some after) before fk r v =
    ((r.status ≡ 200) × (v ≡ idle after fk)) ⊎ ((r.status ≢ 200) × (v ≡ idle before fk))

Commits-Served :
    (o : Option Tables) (t : Tables) (fk : Bool) (rc : ℤ) (v : View) (refused : Reply)
    → refused.status ≢ 200
    → Commits o t fk rc v
    → Served o t fk (answer refused rc) v
Commits-Served none t fk rc v refused n h = ground arith
Commits-Served (some after) t fk rc v refused n h = ground arith

pub run-map :
    (e : Sqlite) {A B : Type 0} (g : A → B) (m : Prog A) (d : e.Db)
    → run e (m >>= λ a. ret (g a)) d ≡ (g (run e m d).0, (run e m d).1)
unfolding run
run-map e g (ret a) d = refl
run-map e g (exec c k) d = run-map e g (k (e.exec_db c d).0) (e.exec_db c d).1
run-map e g (prepare sql k) d = run-map e g (k (e.prepare_db sql d).0) (e.prepare_db sql d).1
run-map e g (step sql k) d = run-map e g (k (e.step_db sql d).0) (e.step_db sql d).1
run-map e g (fetch sql goes_on k) d =
    run-map e g (k (e.fetch_db sql goes_on d).0) (e.fetch_db sql goes_on d).1
run-map e g (finalize m) d = run-map e g m (e.finalize_db d)

-- What a request for a deposit, a purchase, a restock or a new price means for the tables.
abbrev pub deposit_of : ℤ → ℤ → Tables → Option Tables
deposit_of uid amount t =
    if leb_ℤ amount (pos 0)
    then none
    else some (log_row (deposit_row uid amount) (credited uid amount t))

abbrev pub meant_by : (ℤ → Option Tables) → Option ℤ → Option Tables
meant_by f none = none
meant_by f (some n) = f n

abbrev pub deposit_meant : Request → Tables → Option Tables
deposit_meant req t =
    if is_auth_none req.auth.role
    then none
    else meant_by (λ n. deposit_of req.auth.user_id n t)
        (scan_int (codes "{\"amount_gr\":") req.body)

abbrev pub purchase_meant : Request → Tables → Option Tables
purchase_meant req t =
    if is_auth_none req.auth.role
    then none
    else meant_by (λ n. purchase_of req.auth.user_id n t)
        (scan_int (codes "{\"slot_id\":") req.body)

abbrev pub restock_meant : Request → Tables → Option Tables
restock_meant req t =
    if is_auth_admin req.auth.role
    then meant_by
        (λ sid. meant_by (λ n. restock_of sid n t) (scan_int (codes "{\"qty\":") req.body))
        (scan_int (codes "/stock/") req.path)
    else none

abbrev pub reprice_meant : Request → Tables → Option Tables
reprice_meant req t =
    if is_auth_admin req.auth.role
    then meant_by
        (λ iid. meant_by (λ n. reprice_of iid n t) (scan_int (codes "{\"price_gr\":") req.body))
        (scan_int (codes "/items/") req.path)
    else none

module _ (e : Sqlite) (laws : IsSqlite e) (d : e.Db) (t : Tables) (fk : Bool) where
  abbrev Answered : Option Tables → Reply × e.Db → Type 0
  Answered o out = Served o t fk out.0 (laws.view out.1)

  refused_at_once :
      (o : Option Tables) (r : Reply)
      → o ≡ none
      → r.status ≢ 200
      → laws.view d ≡ idle t fk
      → Answered o (run e (ret r) d)
  unfolding run
  refused_at_once none r q n h = (n, h)
  refused_at_once (some after) r q n h = inr (n, h)

  answered :
      (o : Option Tables) (m : Prog ℤ) (refused : Reply)
      → refused.status ≢ 200
      → Commits o t fk (run e m d).0 (laws.view (run e m d).1)
      → Answered o (run e (m >>= λ rc. ret (answer refused rc)) d)
  answered o m refused n h =
      rw (run-map e (answer refused) m d) (Commits-Served o t fk _ _ refused n h)

  deposit_of-Commits :
      (uid amount : ℤ)
      → laws.view d ≡ idle t fk
      → let (rc, d') = run e (balance_deposit uid amount) d in
        Commits (deposit_of uid amount t) t fk rc (laws.view d')
  deposit_of-Commits uid amount h = elim (Bool-cases (leb_ℤ amount (pos 0))) [
    | inl y ↦ rw y (balance_deposit_nonpositive e laws d t fk uid amount h (ground (arith, y)))
    | inr n ↦ rw n (balance_deposit_atomic e laws d t fk uid amount h)
  ]

  -- What the two bodies of a handler with one number have in common.
  served_number :
      (f : ℤ → Option Tables) (g : ℤ → Prog ℤ) (bad refused : Reply) (n : Option ℤ)
      → bad.status ≢ 200
      → refused.status ≢ 200
      → laws.view d ≡ idle t fk
      → ((k : ℤ) → Commits (f k) t fk (run e (g k) d).0 (laws.view (run e (g k) d).1))
      → Answered
          (meant_by f n)
          (run e (elim n [ none ↦ ret bad | some k ↦ g k >>= λ rc. ret (answer refused rc) ]) d)
  served_number f g bad refused none nb nr h c = refused_at_once none bad refl nb h
  served_number f g bad refused (some k) nb nr h c = answered (f k) (g k) refused nr (c k)

  -- A deposit, whatever the request and whatever the library does within its laws: the reply is 200
  -- and the amount in the body is on the balance of the number that the token stands for and in the
  -- books, or the reply is not 200 and the tables are as they were. Where the token stands for nobody,
  -- or the body has no amount, or none that is positive, it is the latter. The admin token stands for
  -- the number 0: it is not refused here. The connection is idle before.
  pub handle_post_deposit-Served :
      (req : Request)
      → laws.view d ≡ idle t fk
      → let (r, d') = run e (handle_post_deposit req) d in
        Served (deposit_meant req t) t fk r (laws.view d')
  unfolding handle_post_deposit
  handle_post_deposit-Served req h = elim (Bool-cases (is_auth_none req.auth.role)) [
    | inl y ↦ rw y (refused_at_once none unauthorized refl (omega arith) h)
    | inr n ↦ rw n (
        served_number (λ k. deposit_of req.auth.user_id k t) (balance_deposit req.auth.user_id)
          (json 400 (codes "{\"error\":\"missing amount_gr\"}")) internal_error
          (scan_int (codes "{\"amount_gr\":") req.body) (omega arith) (omega arith) h
          (λ k. deposit_of-Commits req.auth.user_id k h))
  ]

  -- A purchase, whatever the request and whatever the library does within its laws: the reply is 200
  -- and the product is paid, taken from the slot and in both books, or the reply is not 200 and the
  -- tables are as they were; the latter where the specification refuses the purchase. The connection is
  -- idle before, and the numbers of the tables fit an `int`.
  pub handle_post_purchase-Served :
      (req : Request)
      → laws.view d ≡ idle t fk
      → InRange t
      → let (r, d') = run e (handle_post_purchase req) d in
        Served (purchase_meant req t) t fk r (laws.view d')
  unfolding handle_post_purchase
  handle_post_purchase-Served req h range = elim (Bool-cases (is_auth_none req.auth.role)) [
    | inl y ↦ rw y (refused_at_once none unauthorized refl (omega arith) h)
    | inr n ↦ rw n (
        served_number (λ k. purchase_of req.auth.user_id k t) (orders_purchase req.auth.user_id)
          (json 400 (codes "{\"error\":\"missing slot_id\"}"))
          (json 500 (codes "{\"error\":\"purchase failed\"}"))
          (scan_int (codes "{\"slot_id\":") req.body) (omega arith) (omega arith) h
          (λ k. orders_purchase_atomic e laws d req.auth.user_id k t fk h range))
  ]

  -- A restock, whatever the request and whatever the library does within its laws: the reply is 200
  -- and the slot of the path holds the quantity of the body more, with its log, or the reply is not 200
  -- and the tables are as they were. Without the admin role, a slot number in the path or a positive
  -- quantity in the body, it is the latter. The connection is idle before, and the numbers of the
  -- tables fit an `int`.
  pub handle_post_restock-Served :
      (req : Request)
      → laws.view d ≡ idle t fk
      → InRange t
      → let (r, d') = run e (handle_post_restock req) d in
        Served (restock_meant req t) t fk r (laws.view d')
  unfolding handle_post_restock
  handle_post_restock-Served req h range = elim (Bool-cases (is_auth_admin req.auth.role)) [
    | inr n ↦ rw n (refused_at_once none forbidden_reply refl (omega arith) h)
    | inl y ↦ elim (Option-cases (scan_int (codes "/stock/") req.path)) [
      | inl s ↦ rw (y, s) (refused_at_once none invalid_path refl (omega arith) h)
      | inr (sid, s) ↦
          rw (y, s)
            (served_number (λ k. restock_of sid k t) (product_restock sid)
              (json 400 (codes "{\"error\":\"missing qty\"}"))
              (json 500 (codes "{\"error\":\"restock failed\"}"))
              (scan_int (codes "{\"qty\":") req.body) (omega arith) (omega arith) h
              (λ k. product_restock_atomic e laws d t fk sid k h range))
    ]
  ]

  -- A new price, whatever the request and whatever the library does within its laws: the reply is 200
  -- and the item of the path has the price of the body, or the reply is not 200 and the tables are as
  -- they were. Without the admin role, an item number in the path or a positive price in the body, it
  -- is the latter. The connection is idle before.
  pub handle_post_update_price-Served :
      (req : Request)
      → laws.view d ≡ idle t fk
      → let (r, d') = run e (handle_post_update_price req) d in
        Served (reprice_meant req t) t fk r (laws.view d')
  unfolding handle_post_update_price
  handle_post_update_price-Served req h = elim (Bool-cases (is_auth_admin req.auth.role)) [
    | inr n ↦ rw n (refused_at_once none forbidden_reply refl (omega arith) h)
    | inl y ↦ elim (Option-cases (scan_int (codes "/items/") req.path)) [
      | inl s ↦ rw (y, s) (refused_at_once none invalid_path refl (omega arith) h)
      | inr (iid, s) ↦
          rw (y, s)
            (served_number (λ k. reprice_of iid k t) (product_update_price iid)
              (json 400 (codes "{\"error\":\"missing price_gr\"}"))
              (json 500 (codes "{\"error\":\"update failed\"}"))
              (scan_int (codes "{\"price_gr\":") req.body) (omega arith) (omega arith) h
              (λ k. product_update_price_atomic e laws d t fk iid k h))
    ]
  ]
