-- ===== src/Interleaved/Services.antt =====
-- server/src/services among the calls of other workers: what only reads, the price, and the lookup.
use sshnack.Base.{ℕ, Bool, none, List, Option-cases, Bool-cases, inl, inr}
use sshnack.Base.Int.{ℤ, pos, leb_ℤ}
use sshnack.Base.Text.{Text}
use sshnack.Tables.{Item, Tables, find_where, fingerprint_is}
use sshnack.Tables.Statements.{effect, Row, upsert_user}
use sshnack.Sqlite.{Step, row, done, error, Ending, all_rows, broken, left}
use sshnack.Services.Balance.{balance_get}
use sshnack.Services.Products.{product_get, product_update_price}
use sshnack.Services.Products.Listing.{products_list}
use sshnack.Services.Users.{users_lookup}
use sshnack.Services.Users.Laws.{enrolled}
use sshnack.Ledger.Balances.{enrolled-IsBalanced}
use sshnack.Interleaved.Safe.{Safe, After, with_items}

every_step : (P : Step → Type 0) → ((r : Row) → P (row r)) → P done → P error → (s : Step) → P s
every_step P f d e (row r) = f r
every_step P f d e done = d
every_step P f d e error = e

every_ending :
    (P : Ending → Type 0)
    → ((rs : List Row) → P (all_rows rs))
    → P broken
    → P left
    → (s : Ending) → P s
every_ending P f b l (all_rows rs) = f rs
every_ending P f b l broken = b
every_ending P f b l left = l

pub balance_get-Safe : (uid : ℤ) → Safe none (balance_get uid)
unfolding Safe balance_get
balance_get-Safe uid = ((tt, every_step _ (λ r. tt) tt tt), tt)

pub product_get-Safe : (sid : ℤ) → Safe none (product_get sid)
unfolding Safe product_get
product_get-Safe sid = ((tt, every_step _ (λ r. tt) tt tt), tt)

pub update_price-Safe : (iid price : ℤ) → Safe none (product_update_price iid price)
unfolding Safe product_update_price
update_price-Safe iid price = elim (Bool-cases (leb_ℤ price (pos 0))) [
  | inl y ↦ rw y tt
  | inr n ↦ rw n ((tt, every_step _ (λ r. tt) tt tt), tt)
]

pub products_list-Safe : (gives : ℕ → Bool) → Safe none (products_list gives)
unfolding Safe products_list
products_list-Safe gives = elim (Bool-cases (gives 16)) [
  | inl y ↦ rw y ((tt, every_ending _ (λ r. tt) tt tt), tt)
  | inr n ↦ rw n (tt, tt)
]

enrol-After :
    (P : Step → Tables → Type 0) (fp : Text) (t : Tables) (items : List Item) (fk : Bool)
    → ((r : Row) → P (row r) (with_items items (enrolled fp t).1))
    → After (effect fk (upsert_user fp) (with_items items t)) P
unfolding effect
enrol-After P fp t items fk h = elim (Option-cases (find_where (fingerprint_is fp) t.users)) [
  | inl e ↦ rw (e, After, effect) (let h' = (rw (e, enrolled) at h) in h' _)
  | inr (u, e) ↦ rw (e, After, effect) (let h' = (rw (e, enrolled) at h) in h' _)
]

pub users_lookup-Safe : (fp : Text) → Safe none (users_lookup fp)
unfolding Safe users_lookup
users_lookup-Safe fp = (
  λ t b. (
    (
      (tt, tt),
      λ items fk r. enrol-After _ fp t items fk (λ row. (enrolled-IsBalanced fp t b, tt, (tt, tt))),
    ),
    (tt, tt),
  ),
  tt,
)
