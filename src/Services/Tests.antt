-- ===== src/Services/Tests.antt =====
-- The services on a small machine, and their theorems at it.
use sshnack.Base.{◌≡◌, refl, true, false, none, some, [], ◌∷◌, arith, ◌*◌, ◌+◌, ◌^◌}
use sshnack.Base.Int.{◌+ℤ◌, pos, negsuc, to_int32}
use sshnack.Base.Text.{codes, str_eq}
use sshnack.Tables.{User, Item, Slot, Tables, find_where}
use sshnack.Tables.Range.{InRange}
use sshnack.Tables.Statements.{effect}
use sshnack.Sqlite.{run, column_int}
use sshnack.Sqlite.Faulty.{
  Db, faulty, faulty-IsSqlite, calm, faulty_exec, faulty_prepare, faulty_step,
}
use sshnack.Services.Common.{failure, idle, Commits}
use sshnack.Services.Balance.{balance_deposit, balance_reset}
use sshnack.Services.Balance.Laws.{
  Either, reset_of, log_row, deposit_row, emptied, withdrawal_row, balance_reset_atomic,
}
use sshnack.Services.Balance.Truncation.{balance_reset_truncates}
use sshnack.Services.Orders.{orders_purchase}
use sshnack.Services.Orders.Laws.{purchase_of, purchased, orders_purchase_atomic}
use sshnack.Services.Orders.Success.{orders_purchase_succeeds}
use sshnack.Services.Users.{users_lookup}
use sshnack.Services.Users.Laws.{enrolled, enrolled_again}

abbrev alice : User
alice = record { user_id = pos 1; fingerprint = some (codes "SHA256:a"); balance = pos 1200 }

abbrev cola : Item
cola = record { item_id = pos 1; name = codes "Cola Classic"; price = pos 500 }

abbrev slot_11 : Slot
slot_11 = record { slot_id = pos 11; item_id = pos 1; quantity = pos 2 }

abbrev machine : Tables
machine = record {
  users = alice ∷ [];
  users_seq = pos 1;
  items = cola ∷ [];
  stock = slot_11 ∷ [];
  transactions = deposit_row (pos 1) (pos 1200) ∷ [];
  stock_logs = [];
}

machine-InRange : InRange machine
machine-InRange = omega arith

-- The third call fails, which is the first step of a statement.
abbrev failing : Db
failing = record { view = idle machine true; faults = false ∷ false ∷ true ∷ [] }

deposit_fails : (run faulty (balance_deposit (pos 1) (pos 100)) failing).0 ≡ failure
unfolding run faulty_exec faulty_prepare faulty_step balance_deposit effect find_where
deposit_fails = refl

lookup_adds : (run faulty (users_lookup (codes "SHA256:b")) (calm (idle machine true))).0 ≡ pos 2
unfolding run faulty_exec faulty_prepare faulty_step users_lookup effect find_where column_int
    to_int32 ◌+ℤ◌ str_eq
lookup_adds = refl

balance_reset_atomic_example :
    let (r, d') = run faulty (balance_reset (pos 1)) failing in
    Either (reset_of (pos 1) machine) ((failure, none), machine) true r d'.view
balance_reset_atomic_example =
    balance_reset_atomic faulty faulty-IsSqlite failing machine true (pos 1) refl machine-InRange

abbrev rich : User
rich = record alice { balance = pos (5 + 1 * 2 ^ 32) }

abbrev rich_machine : Tables
rich_machine = record machine { users = rich ∷ [] }

balance_reset_truncates_example :
    run faulty (balance_reset (pos 1)) (calm (idle rich_machine true)) ≡ (
      (pos 0, some (pos 5)),
      calm (idle (log_row (withdrawal_row (pos 1) (negsuc 4)) (emptied (pos 1) rich_machine)) true),
    )
unfolding find_where
balance_reset_truncates_example =
    balance_reset_truncates (pos 1) rich_machine true rich 5 1 refl refl refl (omega arith)
      (omega arith)

orders_purchase_atomic_example :
    Commits
      (purchase_of (pos 1) (pos 11) machine)
      machine
      true
      (run faulty (orders_purchase (pos 1) (pos 11)) failing).0
      (run faulty (orders_purchase (pos 1) (pos 11)) failing).1.view
orders_purchase_atomic_example =
    orders_purchase_atomic faulty faulty-IsSqlite failing (pos 1) (pos 11) machine true refl
      machine-InRange

orders_purchase_succeeds_example :
    run faulty (orders_purchase (pos 1) (pos 11)) (calm (idle machine true))
    ≡ (pos 0, calm (idle (purchased (pos 1) (pos 11) slot_11 cola machine) true))
unfolding find_where
orders_purchase_succeeds_example =
    orders_purchase_succeeds (pos 1) (pos 11) machine true slot_11 cola alice machine-InRange refl
      refl refl refl refl (omega arith) (omega arith)

enrolled_again_example :
    enrolled (codes "SHA256:b") (enrolled (codes "SHA256:b") machine).1
    ≡ enrolled (codes "SHA256:b") machine
enrolled_again_example = enrolled_again (codes "SHA256:b") machine
