-- ===== src/Services/Balance/Laws.antt =====
-- All or nothing for the functions of balance_service.c.
use sshnack.Base.{
  ◌≡◌, ◌≢◌, Bool, ◌⊎◌, inl, inr, arith, Option, none, some, [], ◌∷◌, ◌++◌, if◌then◌else◌,
  Option-cases,
}
use sshnack.Base.Int.{ℤ, pos, ◌+ℤ◌, ◌≤ℤ◌, IsInt, to_int32, to_int32-neg, neg_ℤ, eqb_ℤ}
use sshnack.Tables.{Tables, Transaction, deposit, withdrawal, find_where, update_where, user_is}
use sshnack.Tables.Range.{InRange, balance_read, found_balance}
use sshnack.Tables.Statements.{effect, add_user}
use sshnack.Sqlite.{View, Sqlite, IsSqlite, run, column_int}
use sshnack.Sqlite.Logic.{Wp, Wp-sound}
use sshnack.Services.Common.{Commits, failure, idle}
use sshnack.Services.Balance.{balance_not_found, balance_deposit, balance_get, balance_reset}

-- The row that a cash movement leaves in `transactions`.
abbrev pub deposit_row : ℤ → ℤ → Transaction
deposit_row uid amount = record {
  type = deposit;
  user_id = uid;
  item_id = none;
  quantity = none;
  total_amount = amount;
}

abbrev pub log_row : Transaction → Tables → Tables
log_row x t = record t { transactions = t.transactions ++ x ∷ [] }

abbrev pub credited : ℤ → ℤ → Tables → Tables
credited uid amount t = elim (find_where (user_is uid) t.users) [
  | none ↦ add_user (record { user_id = uid; fingerprint = none; balance = amount }) t
  | some _ ↦ record t {
    users = update_where (user_is uid) (λ u. record u { balance = u.balance +ℤ amount }) t.users;
  }
]

-- One of two results, each with its tables.
abbrev pub Either : {A : Type 0} → A × Tables → A × Tables → Bool → A → View → Type 0
Either (a, t) (b, u) fk r v = ((r ≡ a) × (v ≡ idle t fk)) ⊎ ((r ≡ b) × (v ≡ idle u fk))

-- What a reset is meant to do.
abbrev pub withdrawal_row : ℤ → ℤ → Transaction
withdrawal_row uid total = record {
  type = withdrawal;
  user_id = uid;
  item_id = none;
  quantity = none;
  total_amount = total;
}

abbrev pub emptied : ℤ → Tables → Tables
emptied uid t = record t {
  users = update_where (user_is uid) (λ u. record u { balance = pos 0 }) t.users;
}

abbrev pub reset_of : ℤ → Tables → (ℤ × Option ℤ) × Tables
reset_of uid t = elim (find_where (user_is uid) t.users) [
  | none ↦ ((balance_not_found, none), t)
  | some u ↦
      if eqb_ℤ u.balance (pos 0)
      then ((pos 0, some (pos 0)), t)
      else ((pos 0, some u.balance), log_row (withdrawal_row uid (neg_ℤ u.balance)) (emptied uid t))
]

abbrev pub reading_of : ℤ → Tables → ℤ × Option ℤ
reading_of uid t = elim (find_where (user_is uid) t.users) [
  | none ↦ (balance_not_found, none)
  | some u ↦ (pos 0, some u.balance)
]

balance_deposit-Wp :
    (uid amount : ℤ) (t : Tables) (fk : Bool)
    → Wp
        (balance_deposit uid amount)
        (Commits (some (log_row (deposit_row uid amount) (credited uid amount t))) t fk)
        (idle t fk)
unfolding Wp balance_deposit effect
balance_deposit-Wp uid amount t fk = ground arith

balance_deposit_refused :
    (uid amount : ℤ) (t : Tables) (fk : Bool)
    → amount ≤ℤ pos 0
    → Wp (balance_deposit uid amount) (λ rc v. (rc ≡ failure) × (v ≡ idle t fk)) (idle t fk)
unfolding Wp balance_deposit
balance_deposit_refused uid amount t fk h = ground arith

balance_get-Wp :
    (uid : ℤ) (t : Tables) (fk : Bool)
    → InRange t
    → Wp (balance_get uid) (Either (reading_of uid t, t) ((failure, none), t) fk) (idle t fk)
unfolding Wp balance_get effect column_int
balance_get-Wp uid t fk r = elim (Option-cases (find_where (user_is uid) t.users)) [
  | inl e ↦ ground (arith, e)
  | inr (u, e) ↦ ground (arith, e, balance_read r uid u e)
]

pub neg_read : (b : ℤ) → pos 0 ≤ℤ b → IsInt b → b ≢ pos 0 → to_int32 (neg_ℤ b) ≡ neg_ℤ b
neg_read b p i h = to_int32-neg b i (ground arith)

balance_reset-Wp :
    (uid : ℤ) (t : Tables) (fk : Bool)
    → InRange t
    → Wp (balance_reset uid) (Either (reset_of uid t) ((failure, none), t) fk) (idle t fk)
unfolding Wp balance_reset effect column_int
balance_reset-Wp uid t fk r = elim (Option-cases (find_where (user_is uid) t.users)) [
  | inl e ↦ ground (arith, e)
  | inr (u, e) ↦ ground (
    arith,
    e,
    balance_read r uid u e,
    neg_read u.balance (found_balance r uid u e).0 (found_balance r uid u e).1,
  )
]

module _ (e : Sqlite) (laws : IsSqlite e) (d : e.Db) (t : Tables) (fk : Bool) where
  -- Whatever the library does within its laws, on an idle connection: a deposit returns 0, and the
  -- balance has grown by the amount and the deposit is logged, or it returns -1 and the tables are
  -- as they were. A user that is not there is added with the amount as the balance.
  pub balance_deposit_atomic :
      (uid amount : ℤ)
      → laws.view d ≡ idle t fk
      → let after = log_row (deposit_row uid amount) (credited uid amount t) in
        let (rc, d') = run e (balance_deposit uid amount) d in
        Commits (some after) t fk rc (laws.view d')
  balance_deposit_atomic uid amount h =
      let after = log_row (deposit_row uid amount) (credited uid amount t) in
      Wp-sound e laws (Commits (some after) t fk) (balance_deposit uid amount) d
        (rw h (balance_deposit-Wp uid amount t fk))

  -- An amount that is not positive is refused with -1 and changes nothing.
  pub balance_deposit_nonpositive :
      (uid amount : ℤ)
      → laws.view d ≡ idle t fk
      → amount ≤ℤ pos 0
      → let (rc, d') = run e (balance_deposit uid amount) d in
        (rc ≡ failure) × (laws.view d' ≡ idle t fk)
  balance_deposit_nonpositive uid amount h p =
      Wp-sound e laws (λ rc v. (rc ≡ failure) × (v ≡ idle t fk)) (balance_deposit uid amount) d
        (rw h (balance_deposit_refused uid amount t fk p))

  -- Reading a balance changes nothing; the result is -2 where there is no such user, else 0 and the
  -- balance, or -1 where the library fails. The numbers of the tables fit an `int`.
  pub balance_get_reads :
      (uid : ℤ)
      → laws.view d ≡ idle t fk
      → InRange t
      → let (r, d') = run e (balance_get uid) d in
        Either (reading_of uid t, t) ((failure, none), t) fk r (laws.view d')
  balance_get_reads uid h r =
      Wp-sound e laws (Either (reading_of uid t, t) ((failure, none), t) fk) (balance_get uid) d
        (rw h (balance_get-Wp uid t fk r))

  -- A reset pays out the whole balance: it gives 0 and the balance, which is then 0 and logged as a
  -- withdrawal; for a balance of 0 it gives 0 and 0 with no log, and -2 where there is no such user;
  -- or it gives -1 and changes nothing. The numbers of the tables fit an `int`.
  pub balance_reset_atomic :
      (uid : ℤ)
      → laws.view d ≡ idle t fk
      → InRange t
      → let (r, d') = run e (balance_reset uid) d in
        Either (reset_of uid t) ((failure, none), t) fk r (laws.view d')
  balance_reset_atomic uid h r =
      Wp-sound e laws (Either (reset_of uid t) ((failure, none), t) fk) (balance_reset uid) d
        (rw h (balance_reset-Wp uid t fk r))
