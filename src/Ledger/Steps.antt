-- ===== src/Ledger/Steps.antt =====
-- The books under any sequence of service calls.
use sshnack.Base.{◌≡◌, inl, inr, refl, sym, Bool, Option, none, some, arith}
use sshnack.Base.Int.{ℤ}
use mathlib.Core.Path.{subst}
use sshnack.Tables.{Tables}
use sshnack.Tables.Range.{InRange}
use sshnack.Sqlite.{
  View, Prog, ret, exec, prepare, step, fetch, finalize, ◌>>◌, Sqlite, IsSqlite, run,
}
use sshnack.Services.Common.{Commits, failure, idle}
use sshnack.Services.Balance.{balance_deposit, balance_get, balance_reset}
use sshnack.Services.Balance.Laws.{
  balance_deposit_atomic, balance_get_reads, balance_reset_atomic, Either, reset_of, reading_of,
  deposit_row, credited, log_row,
}
use sshnack.Services.Orders.Laws.{purchase_of, orders_purchase_atomic}
use sshnack.Services.Products.Laws.{
  restock_of, reprice_of, product_restock_atomic, product_update_price_atomic, product_get-Reads,
}
use sshnack.Services.Products.Listing.Laws.{products_list-Lists}
use sshnack.Services.Users.Laws.{enrolled, users_lookup_atomic, Enrolled}
use sshnack.Ledger.{
  IsBalanced, ServiceCall, service, product_get, orders_purchase, product_restock,
  product_update_price, users_lookup, products_list,
}
use sshnack.Ledger.Balances.{
  deposit-IsBalanced, reset-IsBalanced, purchase_of-IsBalanced, enrolled-IsBalanced,
}

-- An idle connection over balanced books.
pub record Sound (fk : Bool) (v : View) : Type 0 where
  pub at_rest : v ≡ idle v.tables fk
  pub balanced : IsBalanced v.tables

pub Sound-at : (fk : Bool) (t : Tables) {v : View} → v ≡ idle t fk → IsBalanced t → Sound fk v
Sound-at fk t e b = subst (λ w. Sound fk w) (sym e) (record { at_rest = refl; balanced = b })

pub run-ret :
    (e : Sqlite) {A : Type 0} (m : Prog A) (d : e.Db) → (run e (m >> ret tt) d).1 ≡ (run e m d).1
unfolding run
run-ret e (ret a) d = refl
run-ret e (exec c k) d = run-ret e (k (e.exec_db c d).0) (e.exec_db c d).1
run-ret e (prepare sql k) d = run-ret e (k (e.prepare_db sql d).0) (e.prepare_db sql d).1
run-ret e (step sql k) d = run-ret e (k (e.step_db sql d).0) (e.step_db sql d).1
run-ret e (fetch sql goes_on k) d =
    run-ret e (k (e.fetch_db sql goes_on d).0) (e.fetch_db sql goes_on d).1
run-ret e (finalize m) d = run-ret e m (e.finalize_db d)

-- What the outcomes of the services say of the books.
Commits-Sound :
    (o : Option Tables) (t : Tables) (fk : Bool) (rc : ℤ) (v : View)
    → IsBalanced t
    → ((after : Tables) → o ≡ some after → IsBalanced after)
    → Commits o t fk rc v
    → Sound fk v
Commits-Sound none t fk rc v b keep (_, e) = Sound-at fk t e b
Commits-Sound (some after) t fk rc v b keep (inl (_, e)) = Sound-at fk after e (keep after refl)
Commits-Sound (some after) t fk rc v b keep (inr (_, e)) = Sound-at fk t e b

Either-Sound :
    {A : Type 0} (x y : A × Tables) (fk : Bool) (r : A) (v : View)
    → IsBalanced x.1
    → IsBalanced y.1
    → Either x y fk r v
    → Sound fk v
Either-Sound (a, t) (b, u) fk r v bx by (inl (_, e)) = Sound-at fk t e bx
Either-Sound (a, t) (b, u) fk r v bx by (inr (_, e)) = Sound-at fk u e by

Enrolled-Sound :
    (x : ℤ × Tables) (t : Tables) (fk : Bool) (rc : ℤ) (v : View)
    → IsBalanced x.1
    → IsBalanced t
    → Enrolled x t fk rc v
    → Sound fk v
Enrolled-Sound (uid, after) t fk rc v ba b (inl (_, e)) = Sound-at fk after e ba
Enrolled-Sound (uid, after) t fk rc v ba b (inr (_, e)) = Sound-at fk t e b

same_books :
    (t after : Tables)
    → after.users ≡ t.users
    → after.transactions ≡ t.transactions
    → IsBalanced t
    → IsBalanced after
same_books t after eu et b v = rw (eu, et) (b v)

after_run :
    (e : Sqlite) (laws : IsSqlite e) {A : Type 0} (m : Prog A) (d : e.Db) (fk : Bool)
    → Sound fk (laws.view (run e m d).1)
    → Sound fk (laws.view (run e (m >> ret tt) d).1)
after_run e laws m d fk h = rw (run-ret e m d) h

module _ (e : Sqlite) (laws : IsSqlite e) (d : e.Db) (t : Tables) (fk : Bool) where
  pub step-Sound :
      (c : ServiceCall)
      → laws.view d ≡ idle t fk
      → InRange t
      → IsBalanced t
      → Sound fk (laws.view (run e (service c) d).1)
  step-Sound (ServiceCall.get_balance uid) h r b = after_run e laws (balance_get uid) d fk (
      Either-Sound (reading_of uid t, t) ((failure, none), t) fk _ _ b b
        (balance_get_reads e laws d t fk uid h r))
  step-Sound (ServiceCall.reset uid) h r b = after_run e laws (balance_reset uid) d fk (
      Either-Sound (reset_of uid t) ((failure, none), t) fk _ _ (reset-IsBalanced uid t b) b
        (balance_reset_atomic e laws d t fk uid h r))
  step-Sound (ServiceCall.get_product sid) h r b =
      after_run e laws (product_get sid) d fk
        (Sound-at fk t (product_get-Reads e laws d t fk sid h r).0 b)
  step-Sound (ServiceCall.deposit uid amount) h r b =
      after_run e laws (balance_deposit uid amount) d fk (
        Commits-Sound (some (log_row (deposit_row uid amount) (credited uid amount t))) t fk _ _ b
          (λ after q.
            subst IsBalanced {x = log_row (deposit_row uid amount) (credited uid amount t)}
              {y = after} (cc) (deposit-IsBalanced uid amount t b))
          (balance_deposit_atomic e laws d t fk uid amount h))
  step-Sound (ServiceCall.purchase uid sid) h r b =
      after_run e laws (orders_purchase uid sid) d fk (
        Commits-Sound (purchase_of uid sid t) t fk _ _ b
          (λ after q. purchase_of-IsBalanced uid sid t after b q)
          (orders_purchase_atomic e laws d uid sid t fk h r))
  step-Sound (ServiceCall.restock sid qty) h r b = after_run e laws (product_restock sid qty) d fk (
      Commits-Sound (restock_of sid qty t) t fk _ _ b
        (λ after q. same_books t after (ground arith) (ground arith) b)
        (product_restock_atomic e laws d t fk sid qty h r))
  step-Sound (ServiceCall.update_price iid price) h r b =
      after_run e laws (product_update_price iid price) d fk (
        Commits-Sound (reprice_of iid price t) t fk _ _ b
          (λ after q. same_books t after (ground arith) (ground arith) b)
          (product_update_price_atomic e laws d t fk iid price h))
  step-Sound (ServiceCall.lookup fp) h r b = after_run e laws (users_lookup fp) d fk (
      Enrolled-Sound (enrolled fp t) t fk _ _ (enrolled-IsBalanced fp t b) b
        (users_lookup_atomic e laws d t fk fp h))
  step-Sound (ServiceCall.list gives) h r b =
      after_run e laws (products_list gives) d fk
        (Sound-at fk t (products_list-Lists e laws d t fk gives h).0 b)

-- The tables that a sequence of service calls reaches, through whatever the library does within its
-- laws. Each call begins while the numbers of the tables fit an `int`.
pub data Reach (e : Sqlite) (laws : IsSqlite e) (fk : Bool) (start : Tables) : Tables → Type 1 where
  none_yet : Reach e laws fk start start
  later :
      {t : Tables}
      → Reach e laws fk start t
      → InRange t
      → (d : e.Db) (c : ServiceCall) → laws.view d ≡ idle t fk
      → Reach e laws fk start (laws.view (run e (service c) d).1).tables

-- If the books are balanced at the start, they are balanced after every sequence of service calls,
-- failed ones included: each user's balance is the sum of the amounts in `transactions`. Each call
-- begins on an idle connection, while the numbers of the tables fit an `int`.
pub Reach-IsBalanced :
    (e : Sqlite) (laws : IsSqlite e) (fk : Bool) (start : Tables) {t : Tables}
    → IsBalanced start
    → Reach e laws fk start t
    → IsBalanced t
Reach-IsBalanced e laws fk start b none_yet = b
Reach-IsBalanced e laws fk start b (later {t} r range d c h) =
    (step-Sound e laws d t fk c h range (Reach-IsBalanced e laws fk start b r)).balanced
