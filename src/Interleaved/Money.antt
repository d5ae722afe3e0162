-- ===== src/Interleaved/Money.antt =====
-- `balance_deposit` and `balance_reset` of server/src/services/balance_service.c among the calls of
-- other workers.
use mathlib.Core.Path.{subst}
use sshnack.Base.{
  sym, ◌≢◌, arith, Bool, none, some, List, if◌then◌else◌, Option-cases, Bool-cases, inl, inr, not,
  ◌≡◌,
}
use sshnack.Base.Int.{ℤ, pos, leb_ℤ, eqb_ℤ, to_int32, neg_ℤ}
use sshnack.Tables.{
  Item, Tables, Transaction, TransactionType, find_where, user_is, deposit, User, withdrawal,
}
use sshnack.Tables.Range.{balance_read, found_balance}
use sshnack.Services.Balance.Laws.{neg_read}
use sshnack.Tables.Statements.{effect, upsert_balance, reset_balance}
use sshnack.Sqlite.{Prog, ret, ◌>>=◌, sqlite_exec, commit, Step, done, column_int}
use sshnack.Services.Common.{failure, rollback_and}
use sshnack.Services.Logs.{db_log_cash_transaction}
use sshnack.Services.Balance.{balance_deposit, balance_reset, reset_from}
use sshnack.Services.Balance.Laws.{credited, log_row, emptied}
use sshnack.Ledger.{IsBalanced}
use sshnack.Ledger.Balances.{deposit-IsBalanced, emptied-IsBalanced}
use sshnack.Interleaved.Safe.{Safe, After, with_items}

abbrev pub cash_row : TransactionType → ℤ → ℤ → Transaction
cash_row type uid total = record {
  type = type;
  user_id = uid;
  item_id = none;
  quantity = none;
  total_amount = total;
}

-- The end of a service that moves cash: the log, and COMMIT if it succeeds.
abbrev pub finish : {A : Type 0} → A → A → ℤ → Prog A
finish bad good logged =
    if not (eqb_ℤ logged (pos 0))
    then rollback_and bad
    else do ok ← sqlite_exec commit; if not ok then rollback_and bad else ret good

pub cash_commit-Safe :
    {A : Type 0} (bad good : A) (t : Tables) (uid total : ℤ) (type : TransactionType)
    → IsBalanced (log_row (cash_row type uid total) t)
    → Safe (some t) (db_log_cash_transaction uid total type >>= finish bad good)
unfolding Safe db_log_cash_transaction effect
cash_commit-Safe bad good t uid total type b =
    ((((tt, tt), λ items fk r. ground (arith, b)), (tt, tt)))

-- The same for the call of `balance_deposit`, from its upsert on.
credit-After :
    (P : Step → Tables → Type 0) (uid amount : ℤ) (t : Tables) (items : List Item) (fk : Bool)
    → P done (with_items items (credited uid amount t))
    → After (effect fk (upsert_balance uid amount) (with_items items t)) P
unfolding effect
credit-After P uid amount t items fk h = elim (Option-cases (find_where (user_is uid) t.users)) [
  | inl e ↦ ground (arith, e, h)
  | inr (u, e) ↦ ground (arith, e, h)
]

pub balance_deposit-Safe : (uid amount : ℤ) → Safe none (balance_deposit uid amount)
unfolding Safe balance_deposit
balance_deposit-Safe uid amount = elim (Bool-cases (leb_ℤ amount (pos 0))) [
  | inl y ↦ rw y tt
  | inr n ↦ rw n (
    λ t b. (
      (
        (tt, tt),
        λ items fk r. credit-After _ uid amount t items fk (
            cash_commit-Safe failure (pos 0) (with_items items (credited uid amount t)) uid amount
              deposit (deposit-IsBalanced uid amount t b)),
      ),
      (tt, tt),
    ),
    tt,
  )
]

reset-After :
    (P : Step → Tables → Type 0) (uid : ℤ) (t : Tables) (items : List Item) (fk : Bool)
    → P done (with_items items (emptied uid t))
    → After (effect fk (reset_balance uid) (with_items items t)) P
unfolding effect
reset-After P uid t items fk h = ground (arith, h)

-- Once the balance is read.
reset_from-Safe :
    (uid : ℤ) (t : Tables) (u : User)
    → find_where (user_is uid) t.users ≡ some u
    → (u.balance ≢ pos 0 → to_int32 (neg_ℤ u.balance) ≡ neg_ℤ u.balance)
    → IsBalanced t
    → Safe (some t) (reset_from uid u.balance)
unfolding Safe
reset_from-Safe uid t u e neg b = elim (Bool-cases (eqb_ℤ u.balance (pos 0))) [
  | inl z ↦ rw z ((tt, tt))
  | inr nz ↦ rw nz (
    (
      (tt, tt),
      λ items fk r. reset-After _ uid t items fk (
          cash_commit-Safe _ _ (with_items items (emptied uid t)) uid (to_int32 (neg_ℤ u.balance))
            withdrawal (λ v. rw (neg (ground (arith, nz))) (emptied-IsBalanced uid t u e b v))),
    ),
    (tt, tt),
  )
]

pub balance_reset-Safe : (uid : ℤ) → Safe none (balance_reset uid)
unfolding Safe balance_reset effect column_int
balance_reset-Safe uid = (
  λ t b. (
    (
      (tt, tt),
      λ items fk r. elim (Option-cases (find_where (user_is uid) t.users)) [
        | inl e ↦ rw e (tt, tt)
        | inr (u, e) ↦ rw e (
            subst (λ z. Safe (some (with_items items t)) (reset_from uid z))
              (sym (balance_read r uid u e))
              (reset_from-Safe uid (with_items items t) u e
                (neg_read u.balance (found_balance r uid u e).0 (found_balance r uid u e).1) b))
      ],
    ),
    (tt, tt),
  ),
  tt,
)
