-- ===== src/Ledger/Tests.antt =====
-- The books of a machine with one user, through a purchase.
use sshnack.Base.{refl, true, some, [], ◌∷◌, arith}
use sshnack.Base.Int.{pos, int_laws}
use sshnack.Base.Text.{codes}
use sshnack.Tables.{Tables, find_where}
use sshnack.Sqlite.{run}
use sshnack.Sqlite.Faulty.{faulty, faulty-IsSqlite, calm}
use sshnack.Services.Common.{idle}
use sshnack.Services.Balance.Laws.{deposit_row}
use sshnack.Ledger.{IsBalanced, booked, ServiceCall, service}
use sshnack.Ledger.Steps.{none_yet, later, Reach-IsBalanced}

abbrev machine : Tables
machine = record {
  users =
      record { user_id = pos 1; fingerprint = some (codes "SHA256:a"); balance = pos 1200 } ∷ [];
  users_seq = pos 1;
  items = record { item_id = pos 1; name = codes "Cola Classic"; price = pos 500 } ∷ [];
  stock = record { slot_id = pos 11; item_id = pos 1; quantity = pos 2 } ∷ [];
  transactions = deposit_row (pos 1) (pos 1200) ∷ [];
  stock_logs = [];
}

machine-IsBalanced : IsBalanced machine
unfolding booked find_where
machine-IsBalanced uid = grind int_laws

Reach-IsBalanced_example :
    IsBalanced
      (run faulty
        (service (ServiceCall.purchase (pos 1) (pos 11)))
        (calm (idle machine true))).1.view.tables
Reach-IsBalanced_example = Reach-IsBalanced faulty faulty-IsSqlite true machine machine-IsBalanced (
    later none_yet (omega arith) (calm (idle machine true)) (ServiceCall.purchase (pos 1) (pos 11))
      refl)
