-- ===== src/Server/Access.antt =====
-- What a request on the public port may change, by the token that it brings.
use sshnack.Base.{
  ◌≡◌, ◌≢◌, ◌⊎◌, inl, inr, refl, sym, ap, true, false, if◌then◌else◌, Option, none, some, ◌&&◌,
  arith, Option-cases, Bool-cases,
}
use sshnack.Base.Int.{ℤ, pos, ◌+ℤ◌, ◌-ℤ◌, eqb_ℤ, leb_ℤ, ltb_ℤ}
use sshnack.Base.Text.{codes}
use sshnack.Base.Number.{scan_int}
use mathlib.Core.Path.{subst}
use sshnack.Auth.{AuthRole, auth_none, auth_user, auth_admin}
use sshnack.Tables.{User, Slot, Item, Tables, find_where, update_where, user_is, slot_is}
use sshnack.Tables.Rows.{find_where-update_where_other, find_where-append}
use sshnack.Services.Balance.Laws.{credited, reset_of}
use sshnack.Services.Orders.Laws.{purchase_of, purchase_from, taken, purchased}
use sshnack.Services.Products.Laws.{restock_of, reprice_of}
use sshnack.Handlers.{is_auth_none, is_auth_admin}
use sshnack.Router.{Request}
use sshnack.Handlers.Laws.{
  meant_by, deposit_of, deposit_meant, purchase_meant, restock_meant, reprice_meant,
}

-- The rows of all users but one are as they were.
abbrev pub Others : ℤ → Tables → Tables → Type 0
Others uid t t' =
    (k : ℤ) → k ≢ uid → find_where (user_is k) t'.users ≡ find_where (user_is k) t.users

-- Apart from the books, only the row of one user may differ, and one piece may be gone from a slot.
abbrev pub Spends : ℤ → Tables → Tables → Type 0
Spends uid t t' =
    Others uid t t'
    × (t'.items ≡ t.items)
    × ((t'.stock ≡ t.stock) ⊎ ((sid : ℤ) × (t'.stock ≡ taken sid t.stock)))

-- What a request with this role and number may do to the tables: without a user nothing; as a user,
-- change the own balance and take from a slot; as the admin, not touch the other users.
abbrev pub Allowed : AuthRole → ℤ → Tables → Tables → Type 0
Allowed auth_none uid t t' = t' ≡ t
Allowed auth_user uid t t' = Spends uid t t'
Allowed auth_admin uid t t' = Others uid t t'

pub Allowed-refl : (role : AuthRole) (uid : ℤ) (t : Tables) → Allowed role uid t t
Allowed-refl auth_none uid t = refl
Allowed-refl auth_user uid t = (λ k h. refl, refl, inl refl)
Allowed-refl auth_admin uid t = λ k h. refl

apart : (uid k : ℤ) → k ≢ uid → (u : User) → user_is uid u ≡ true → user_is k u ≡ false
apart uid k h u e = grind arith

-- A change of the row of one user.
update-Others :
    (uid : ℤ) (f : User → User) (t : Tables)
    → ((u : User) → (f u).user_id ≡ u.user_id)
    → Others uid t (record t { users = update_where (user_is uid) f t.users })
update-Others uid f t same k h =
    find_where-update_where_other (user_is uid) (user_is k) f t.users
      (λ u. ap (λ i. eqb_ℤ i k) (same u)) (apart uid k h)

credited-Spends : (uid amount : ℤ) (t : Tables) → Spends uid t (credited uid amount t)
credited-Spends uid amount t = elim (Option-cases (find_where (user_is uid) t.users)) [
  | inr (u, e) ↦
      rw (e, credited)
        (
          update-Others uid (λ u'. record u' { balance = u'.balance +ℤ amount }) t (λ u'. refl),
          refl,
          inl refl,
        )
  | inl e ↦
      let new : User = record { user_id = uid; fingerprint = none; balance = amount } in
      rw (e, credited)
        (
          λ k h.
              ground
                (arith, apart uid k h new (grind arith), find_where-append (user_is k) t.users new),
          refl,
          inl refl,
        )
]

none_some : {x : Tables} {P : Type 0} → none ≡ some x → P
none_some e = cc

some-eq : {x y : Tables} → some x ≡ some y → x ≡ y
some-eq e = cc

deposit_of-Spends :
    (uid amount : ℤ) (t after : Tables) → deposit_of uid amount t ≡ some after → Spends uid t after
deposit_of-Spends uid amount t after e = elim (Bool-cases (leb_ℤ amount (pos 0))) [
  | inl y ↦ ground (arith, y)
  | inr n ↦
      let (others, items, stock) = credited-Spends uid amount t in
      subst (λ a. Spends uid t a) (some-eq (rw n at e)) (others, items, stock)
]

purchased-Spends :
    (uid sid : ℤ) (s : Slot) (i : Item) (t : Tables) → Spends uid t (purchased uid sid s i t)
purchased-Spends uid sid s i t = (
  update-Others uid (λ u. record u { balance = u.balance -ℤ i.price }) t (λ u. refl),
  refl,
  inr (sid, refl),
)

purchase_from-Spends :
    (uid sid : ℤ) (t after : Tables) (u : Option User) (s : Slot) (i : Option Item)
    → purchase_from uid sid t u s i ≡ some after
    → Spends uid t after
purchase_from-Spends uid sid t after none s i e = cc
purchase_from-Spends uid sid t after (some u) s none e = cc
purchase_from-Spends uid sid t after (some u) s (some i) e =
    elim (Bool-cases (ltb_ℤ (pos 0) s.quantity && leb_ℤ i.price u.balance)) [
      | inl y ↦ subst (λ a. Spends uid t a) (some-eq (rw y at e)) (purchased-Spends uid sid s i t)
      | inr n ↦ none_some (rw n at e)
    ]

purchase_of-Spends :
    (uid sid : ℤ) (t after : Tables) → purchase_of uid sid t ≡ some after → Spends uid t after
purchase_of-Spends uid sid t after e = elim (Option-cases (find_where (slot_is sid) t.stock)) [
  | inl none_found ↦ none_some (rw (none_found, purchase_of) at e)
  | inr (s, found) ↦ purchase_from-Spends uid sid t after _ s _ (rw (found, purchase_of) at e)
]

pub reset_of-Spends : (uid : ℤ) (t : Tables) → Spends uid t (reset_of uid t).1
reset_of-Spends uid t = elim (Option-cases (find_where (user_is uid) t.users)) [
  | inl e ↦ rw (e, reset_of) (Allowed-refl auth_user uid t)
  | inr (u, e) ↦ elim (Bool-cases (eqb_ℤ u.balance (pos 0))) [
    | inl y ↦ rw (e, y, reset_of) (Allowed-refl auth_user uid t)
    | inr n ↦
        rw (e, n, reset_of)
          (update-Others uid (λ u'. record u' { balance = pos 0 }) t (λ u'. refl), refl, inl refl)
  ]
]

restock_of-Others :
    (uid sid qty : ℤ) (t after : Tables) → restock_of sid qty t ≡ some after → Others uid t after
restock_of-Others uid sid qty t after e k h = elim (Bool-cases (leb_ℤ qty (pos 0))) [
  | inl y ↦ none_some (rw y at e)
  | inr n ↦ elim (Option-cases (find_where (slot_is sid) t.stock)) [
    | inl none_found ↦ none_some (rw (n, none_found) at e)
    | inr (s, found) ↦ ap (λ a. find_where (user_is k) a.users) (sym (some-eq (rw (n, found) at e)))
  ]
]

reprice_of-Others :
    (uid iid price : ℤ) (t after : Tables)
    → reprice_of iid price t ≡ some after
    → Others uid t after
reprice_of-Others uid iid price t after e k h = elim (Bool-cases (leb_ℤ price (pos 0))) [
  | inl y ↦ none_some (rw y at e)
  | inr n ↦ ap (λ a. find_where (user_is k) a.users) (sym (some-eq (rw n at e)))
]

pub meant_by-some :
    (P : Tables → Type 0) (f : ℤ → Option Tables) (n : Option ℤ)
    → ((k : ℤ) (after : Tables) → f k ≡ some after → P after)
    → (after : Tables) → meant_by f n ≡ some after
    → P after
meant_by-some P f none h after e = cc
meant_by-some P f (some n) h after e = h n after e

-- What is meant for a user is allowed.
pub user-Allowed :
    (role : AuthRole) (uid : ℤ) (t : Tables) (o : Option Tables)
    → ((after : Tables) → o ≡ some after → Spends uid t after)
    → (after : Tables) → (if is_auth_none role then none else o) ≡ some after
    → Allowed role uid t after
user-Allowed auth_none uid t o h after e = cc
user-Allowed auth_user uid t o h after e = h after e
user-Allowed auth_admin uid t o h after e = (h after e).0

-- What is meant for the admin is allowed.
pub admin-Allowed :
    (role : AuthRole) (uid : ℤ) (t : Tables) (o : Option Tables)
    → ((after : Tables) → o ≡ some after → Others uid t after)
    → (after : Tables) → (if is_auth_admin role then o else none) ≡ some after
    → Allowed role uid t after
admin-Allowed auth_none uid t o h after e = cc
admin-Allowed auth_user uid t o h after e = cc
admin-Allowed auth_admin uid t o h after e = h after e

-- A change that a request with a role is allowed, where it needs one.
pub known-Allowed :
    (role : AuthRole) (uid : ℤ) (t after : Tables)
    → is_auth_none role ≡ false
    → Spends uid t after
    → Allowed role uid t after
known-Allowed auth_none uid t after n s = cc
known-Allowed auth_user uid t after n s = s
known-Allowed auth_admin uid t after n s = s.0

-- What the four requests that change tables are meant to do is allowed.
module _ (req : Request) (t : Tables) where
  pub deposit_meant-Allowed :
      (after : Tables)
      → deposit_meant req t ≡ some after
      → Allowed req.auth.role req.auth.user_id t after
  deposit_meant-Allowed =
      let uid = req.auth.user_id in
      let n = scan_int (codes "{\"amount_gr\":") req.body in
      user-Allowed req.auth.role uid t (meant_by (λ k. deposit_of uid k t) n)
        (meant_by-some (Spends uid t) (λ k. deposit_of uid k t) n λ k. deposit_of-Spends uid k t)

  pub purchase_meant-Allowed :
      (after : Tables)
      → purchase_meant req t ≡ some after
      → Allowed req.auth.role req.auth.user_id t after
  purchase_meant-Allowed =
      let uid = req.auth.user_id in
      let n = scan_int (codes "{\"slot_id\":") req.body in
      user-Allowed req.auth.role uid t (meant_by (λ k. purchase_of uid k t) n)
        (meant_by-some (Spends uid t) (λ k. purchase_of uid k t) n λ k. purchase_of-Spends uid k t)

  pub restock_meant-Allowed :
      (after : Tables)
      → restock_meant req t ≡ some after
      → Allowed req.auth.role req.auth.user_id t after
  restock_meant-Allowed =
      let uid = req.auth.user_id in
      let path = scan_int (codes "/stock/") req.path in
      let qty = scan_int (codes "{\"qty\":") req.body in
      let both = λ (sid : ℤ). meant_by (λ n. restock_of sid n t) qty in
      admin-Allowed req.auth.role uid t (meant_by both path) (
        meant_by-some (Others uid t) both path λ sid.
          meant_by-some (Others uid t) (λ n. restock_of sid n t) qty
            λ n. restock_of-Others uid sid n t)

  pub reprice_meant-Allowed :
      (after : Tables)
      → reprice_meant req t ≡ some after
      → Allowed req.auth.role req.auth.user_id t after
  reprice_meant-Allowed =
      let uid = req.auth.user_id in
      let path = scan_int (codes "/items/") req.path in
      let price = scan_int (codes "{\"price_gr\":") req.body in
      let both = λ (iid : ℤ). meant_by (λ n. reprice_of iid n t) price in
      admin-Allowed req.auth.role uid t (meant_by both path) (
        meant_by-some (Others uid t) both path λ iid.
          meant_by-some (Others uid t) (λ n. reprice_of iid n t) price
            λ n. reprice_of-Others uid iid n t)
