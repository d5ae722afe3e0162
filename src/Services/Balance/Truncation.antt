-- ===== src/Services/Balance/Truncation.antt =====
-- What `balance_reset` does with a balance that is larger than an `int`.
use sshnack.Base.{refl, ◌≡◌, ℕ, ◌+◌, ◌*◌, ◌^◌, ◌<◌, some, arith, ap, ◌∙◌, Bool}
use sshnack.Base.Int.{ℤ, pos, neg_ℤ, to_int32, to_int32-neg}
use sshnack.Tables.{User, Tables, find_where, user_is, check_user}
use sshnack.Tables.Rows.{Once, all_where-Once, map_row, find_where-update_where_self}
use sshnack.Tables.Statements.{effect}
use sshnack.Sqlite.{run, column_int}
use sshnack.Sqlite.Faulty.{faulty, calm, faulty_exec, faulty_prepare, faulty_step}
use sshnack.Services.Common.{idle}
use sshnack.Services.Balance.{balance_reset}
use sshnack.Services.Balance.Laws.{withdrawal_row, log_row, emptied}

low_bits : (n k : ℕ) → n < 2 ^ 31 → to_int32 (pos (n + k * 2 ^ 32)) ≡ pos n
unfolding to_int32
low_bits n k h = ground arith

-- Where no call fails: of a balance of n + k * 2 ^ 32 only n is paid out and logged as withdrawn,
-- while the balance is set to 0. The user has one row, and 0 < n < 2 ^ 31.
pub balance_reset_truncates :
    (uid : ℤ) (t : Tables) (fk : Bool) (u : User) (n k : ℕ)
    → find_where (user_is uid) t.users ≡ some u
    → Once (user_is uid) t.users
    → u.balance ≡ pos (n + k * 2 ^ 32)
    → 0 < n
    → n < 2 ^ 31
    → run faulty (balance_reset uid) (calm (idle t fk)) ≡ (
      (pos 0, some (pos n)),
      calm (idle (log_row (withdrawal_row uid (neg_ℤ (pos n))) (emptied uid t)) fk),
    )
unfolding run faulty_exec faulty_prepare faulty_step balance_reset effect column_int
balance_reset_truncates uid t fk u n k e o b p h = ground (
  arith,
  e,
  b,
  low_bits n k h,
  to_int32-neg (pos n) h (omega arith),
  find_where-update_where_self (user_is uid) (λ w. record w { balance = pos 0 }) t.users (λ w. refl)
      ∙ ap (map_row (λ (w : User). record w { balance = pos 0 })) e,
  all_where-Once (user_is uid) (λ w. check_user (record w { balance = pos 0 })) t.users u o e refl,
)
