-- ===== src/Ledger/Balances.antt =====
-- Each change of the tables keeps every balance equal to what is booked.
use sshnack.Base.{
  ◌≡◌, ◌≢◌, refl, Option, none, some, List, [], ◌∷◌, ◌++◌, arith, if◌then◌else◌, Option-cases, inl,
  inr, Bool-cases, sym, ◌∙◌, ap, zero, suc,
}
use sshnack.Base.Int.{ℤ, pos, negsuc, ◌+ℤ◌, ◌-ℤ◌, eqb_ℤ, eqb_ℤ_iff, int_laws, neg_ℤ}
use mathlib.Core.Path.{subst}
use mathlib.Core.Bool.{false≢true}
use sshnack.Base.Text.{Text}
use sshnack.Tables.{
  User, Item, Slot, Transaction, Tables, find_where, update_where, user_is, slot_is, item_is,
  fingerprint_is,
}
use sshnack.Tables.Rows.{
  map_row, find_where-update_where_self, find_where-update_where_other, find_where-append,
}
use sshnack.Tables.Statements.{add_user}
use sshnack.Services.Balance.Laws.{
  deposit_row, withdrawal_row, log_row, credited, reset_of, emptied,
}
use sshnack.Services.Orders.Laws.{purchased, purchase_row, paid, purchase_of, purchase_from}
use sshnack.Services.Users.Laws.{enrolled, new_user}
use sshnack.Ledger.{booked, balance_of, user_balance, IsBalanced}

pub booked-append :
    (uid : ℤ) (x : Transaction) (rows : List Transaction)
    → booked uid (rows ++ x ∷ [])
      ≡ booked uid rows +ℤ (if eqb_ℤ x.user_id uid then x.total_amount else pos 0)
unfolding booked
booked-append uid x [] = omega int_laws
booked-append uid x (y ∷ rows) = rw (booked-append uid x rows) (omega int_laws)

-- A change of the balance of one user.
module _ (uid : ℤ) (f : User → User) (keeps : (u : User) → (f u).user_id ≡ u.user_id) where
  pub balance_of-update_self :
      (users : List User)
      → balance_of uid (update_where (user_is uid) f users)
        ≡ user_balance (map_row f (find_where (user_is uid) users))
  balance_of-update_self users = ap user_balance (
      find_where-update_where_self (user_is uid) f users
        (λ u. ap (λ (k : ℤ). eqb_ℤ k uid) (keeps u)))

  pub balance_of-update_other :
      (v : ℤ) (users : List User)
      → uid ≢ v
      → balance_of v (update_where (user_is uid) f users) ≡ balance_of v users
  balance_of-update_other v users ne = ap user_balance (
      find_where-update_where_other (user_is uid) (user_is v) f users
        (λ u. ap (λ (k : ℤ). eqb_ℤ k v) (keeps u))
        (λ u e. ground (arith, eqb_ℤ_iff u.user_id uid, eqb_ℤ_iff u.user_id v)))

abbrev if_own : ℤ → ℤ → ℤ → ℤ
if_own uid v amount = if eqb_ℤ uid v then amount else pos 0

+ℤ_zero : (a : ℤ) → a +ℤ pos 0 ≡ a
+ℤ_zero a = omega int_laws

zero_+ℤ : (a : ℤ) → pos 0 +ℤ a ≡ a
zero_+ℤ a = omega int_laws

+ℤ_neg : (a b : ℤ) → a -ℤ b ≡ a +ℤ neg_ℤ b
+ℤ_neg a (pos zero) = omega int_laws
+ℤ_neg a (pos (suc n)) = omega int_laws
+ℤ_neg a (negsuc n) = omega int_laws

cancels : (a : ℤ) → pos 0 ≡ a +ℤ neg_ℤ a
cancels (pos zero) = omega int_laws
cancels (pos (suc n)) = omega int_laws
cancels (negsuc n) = omega int_laws

-- A change of one user's balance by `amount`.
module _ (uid amount : ℤ) (f : User → User) (keeps : (w : User) → (f w).user_id ≡ w.user_id)
    (t : Tables) (u : User) (found : find_where (user_is uid) t.users ≡ some u)
    (change : (f u).balance ≡ u.balance +ℤ amount) where
  balance_of-update :
      (v : ℤ)
      → balance_of v (update_where (user_is uid) f t.users)
        ≡ balance_of v t.users +ℤ if_own uid v amount
  balance_of-update v = elim (Bool-cases (eqb_ℤ uid v)) [
    | inl same ↦ ground (
      arith,
      same,
      subst
          (λ w.
            balance_of w (update_where (user_is uid) f t.users) ≡ balance_of w t.users +ℤ amount)
          ((eqb_ℤ_iff uid v).0 same) self,
    )
    | inr other ↦ ground (
      arith,
      other,
      +ℤ_zero (balance_of v t.users),
      balance_of-update_other uid f keeps v t.users
          (λ q. false≢true (sym other ∙ (eqb_ℤ_iff uid v).1 q)),
    )
  ]
    where
      self :
          balance_of uid (update_where (user_is uid) f t.users) ≡ balance_of uid t.users +ℤ amount
      self = balance_of-update_self uid f keeps t.users ∙ ground (arith, found, change)

  -- If it is booked for the user, the books stay balanced.
  pub booking-IsBalanced :
      (x : Transaction)
      → x.user_id ≡ uid
      → x.total_amount ≡ amount
      → IsBalanced t
      → (v : ℤ)
      → balance_of v (update_where (user_is uid) f t.users) ≡ booked v (t.transactions ++ x ∷ [])
  booking-IsBalanced x xu xa b v =
      rw (balance_of-update v, booked-append v x t.transactions, b v, xu, xa)

-- A new user, with what is booked for that user at the same time.
pub balance_of-add_user :
    (u : User) (t : Tables)
    → find_where (user_is u.user_id) t.users ≡ none
    → (v : ℤ)
    → balance_of v (add_user u t).users ≡ balance_of v t.users +ℤ if_own u.user_id v u.balance
balance_of-add_user u t new v = elim (Bool-cases (eqb_ℤ u.user_id v)) [
  | inl same ↦ ground (
    arith,
    same,
    subst (λ w. find_where (user_is w) t.users ≡ none) ((eqb_ℤ_iff u.user_id v).0 same) new,
    find_where-append (user_is v) t.users u,
    zero_+ℤ u.balance,
  )
  | inr other ↦
      ground (arith, other, find_where-append (user_is v) t.users u, +ℤ_zero (balance_of v t.users))
]

-- The books stay balanced under what each service is meant to do.
pub deposit-IsBalanced :
    (uid amount : ℤ) (t : Tables)
    → IsBalanced t
    → IsBalanced (log_row (deposit_row uid amount) (credited uid amount t))
deposit-IsBalanced uid amount t b = elim (Option-cases (find_where (user_is uid) t.users)) [
  | inl e ↦ λ v. rw (e, credited) (opening e v)
  | inr (u, e) ↦ λ v.
      rw (e, credited)
        (booking-IsBalanced uid amount (λ w. record w { balance = w.balance +ℤ amount }) (λ w. refl)
          t u e refl (deposit_row uid amount) refl refl b v)
]
  where
    opening :
        find_where (user_is uid) t.users ≡ none
        → (v : ℤ)
        → balance_of v
            (t.users ++ record { user_id = uid; fingerprint = none; balance = amount } ∷ [])
          ≡ booked v (t.transactions ++ deposit_row uid amount ∷ [])
    opening e v = rw (
      balance_of-add_user (record { user_id = uid; fingerprint = none; balance = amount }) t e v,
      booked-append v (deposit_row uid amount) t.transactions,
      b v,
    )

pub emptied-IsBalanced :
    (uid : ℤ) (t : Tables) (u : User)
    → find_where (user_is uid) t.users ≡ some u
    → IsBalanced t
    → IsBalanced (log_row (withdrawal_row uid (neg_ℤ u.balance)) (emptied uid t))
emptied-IsBalanced uid t u e b =
    booking-IsBalanced uid (neg_ℤ u.balance) (λ w. record w { balance = pos 0 }) (λ w. refl) t u e
      (cancels u.balance) (withdrawal_row uid (neg_ℤ u.balance)) refl refl b

pub reset-IsBalanced : (uid : ℤ) (t : Tables) → IsBalanced t → IsBalanced (reset_of uid t).1
reset-IsBalanced uid t b = elim (Option-cases (find_where (user_is uid) t.users)) [
  | inl e ↦ λ v. rw (e, reset_of) (b v)
  | inr (u, e) ↦ elim (Bool-cases (eqb_ℤ u.balance (pos 0))) [
    | inl z ↦ λ v. rw (e, reset_of) (rw z (b v))
    | inr nz ↦ λ v. rw (e, reset_of) (rw nz (emptied-IsBalanced uid t u e b v))
  ]
]

pub paid-IsBalanced :
    (uid iid price : ℤ) (t : Tables) (u : User)
    → find_where (user_is uid) t.users ≡ some u
    → IsBalanced t
    → IsBalanced
        (log_row (purchase_row uid iid price) (record t { users = paid uid price t.users }))
paid-IsBalanced uid iid price t u e b =
    booking-IsBalanced uid (neg_ℤ price) (λ w. record w { balance = w.balance -ℤ price })
      (λ w. refl) t u e (+ℤ_neg u.balance price) (purchase_row uid iid price) refl refl b

purchase_from-IsBalanced :
    (uid sid : ℤ) (t : Tables) (ou : Option User) (s : Slot) (oi : Option Item) (after : Tables)
    → find_where (user_is uid) t.users ≡ ou
    → IsBalanced t
    → purchase_from uid sid t ou s oi ≡ some after
    → IsBalanced after
purchase_from-IsBalanced uid sid t none s oi after e b h = absurd (cc)
purchase_from-IsBalanced uid sid t (some u) s none after e b h = absurd (cc)
purchase_from-IsBalanced uid sid t (some u) s (some i) after e b h =
    subst IsBalanced {x = purchased uid sid s i t} {y = after} (ground (arith, h))
      (paid-IsBalanced uid s.item_id i.price t u e b)

pub purchase_of-IsBalanced :
    (uid sid : ℤ) (t after : Tables)
    → IsBalanced t
    → purchase_of uid sid t ≡ some after
    → IsBalanced after
purchase_of-IsBalanced uid sid t after b h = from (find_where (slot_is sid) t.stock) h
  where
    from :
        (os : Option Slot)
        → (elim os [
          | none ↦ none
          | some s ↦
              purchase_from uid sid t
                (find_where (user_is uid) t.users)
                s
                (find_where (item_is s.item_id) t.items)
        ])
          ≡ some after
        → IsBalanced after
    from none q = absurd (cc)
    from (some s) q =
        purchase_from-IsBalanced uid sid t _ s (find_where (item_is s.item_id) t.items) after refl b
          q

pub enrolled-IsBalanced : (fp : Text) (t : Tables) → IsBalanced t → IsBalanced (enrolled fp t).1
enrolled-IsBalanced fp t b = elim (Option-cases (find_where (fingerprint_is fp) t.users)) [
  | inr (u, e) ↦ λ v. rw (e, enrolled) (b v)
  | inl e ↦ λ v. rw (e, enrolled) (newcomer v)
]
  where
    newcomer : (v : ℤ) → balance_of v (t.users ++ new_user fp t ∷ []) ≡ booked v t.transactions
    newcomer v = elim (Option-cases (find_where (user_is v) t.users)) [
      | inl e ↦ ground (arith, e, find_where-append (user_is v) t.users (new_user fp t), b v)
      | inr (u, e) ↦ ground (arith, e, find_where-append (user_is v) t.users (new_user fp t), b v)
    ]
