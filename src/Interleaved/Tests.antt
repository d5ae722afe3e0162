-- ===== src/Interleaved/Tests.antt =====
-- Two workers on one connection: a deposit, and within its transaction a change of a price.
use sshnack.Sqlite.{View}
use sshnack.Base.{ap, sym, inr, ℕ, List, [], ◌∷◌, refl, arith, ◌≡◌, true, false, none, some}
use sshnack.Base.Int.{pos, int_laws, ◌+ℤ◌}
use sshnack.Base.Text.{codes}
use sshnack.Tables.Range.{InRange}
use sshnack.Tables.{all_where, Tables, find_where, update_where}
use sshnack.Tables.Statements.{effect}
use sshnack.Tables.Statements.{Sql}
use sshnack.Sqlite.{Sqlite, Step, error, row, done, rolled_back}
use sshnack.Ledger.{balance_of}
use sshnack.Services.Balance.{balance_get}
use sshnack.Sqlite.Faulty.{
  Db, faulty, faulty-IsSqlite, calm, faulty_exec, faulty_prepare, faulty_step,
}
use sshnack.Sqlite.Faulty.Steady.{
  faulty_exec_fails, faulty_prepare_fails, faulty_step_fails, faulty_fetch_fails,
}
use sshnack.Services.Database.{Opener, IsOpener, db_init}
use sshnack.Services.Common.{idle}
use sshnack.Services.Balance.Laws.{deposit_row}
use sshnack.Services.Balance.{balance_deposit}
use sshnack.Services.Products.{product_update_price}
use sshnack.Ledger.{IsBalanced, booked, ServiceCall, service}
use sshnack.Interleaved.{
  Workers, at_rest, set_worker, advance, IsSteady, Reach, none_yet, calls, takes,
}
use sshnack.Interleaved.Invariant.{durable, interleaved-IsBalanced}

faulty-IsSteady : IsSteady faulty faulty-IsSqlite
faulty-IsSteady = record {
  exec_steady = faulty_exec_fails;
  prepare_steady = faulty_prepare_fails;
  step_steady = faulty_step_fails;
  fetch_steady = faulty_fetch_fails;
}

abbrev machine : Tables
machine = record {
  users = record { user_id = pos 1; fingerprint = none; balance = pos 300 } ∷ [];
  users_seq = pos 1;
  items = record { item_id = pos 1; name = codes "Cola"; price = pos 500 } ∷ [];
  stock = [];
  transactions = deposit_row (pos 1) (pos 300) ∷ [];
  stock_logs = [];
}

machine-IsBalanced : IsBalanced machine
unfolding booked find_where
machine-IsBalanced uid = grind int_laws

-- The calls of the workers that stand in a list, one after another.
abbrev turns : (e : Sqlite) → Workers → e.Db → List ℕ → Workers × e.Db
turns e ws d [] = (ws, d)
turns e ws d (i ∷ schedule) =
    let (m, d') = advance e (ws i) d in turns e (set_worker ws i m) d' schedule

abbrev both : Workers
both =
    set_worker (set_worker at_rest 0 (service (ServiceCall.deposit (pos 1) (pos 100)))) 1
      (service (ServiceCall.update_price (pos 1) (pos 700)))

-- Its COMMIT fails, so that the worker 0 runs ROLLBACK.
abbrev start : Db
start = record {
  view = idle machine true;
  faults = false ∷ false ∷ false ∷ false ∷ false ∷ false ∷ false ∷ true ∷ [];
}

-- The price is set while the transaction of worker 0 is open, and is back after the ROLLBACK.
undone :
    (turns faulty both start (0 ∷ 1 ∷ 1 ∷ 1 ∷ 0 ∷ 0 ∷ 0 ∷ 0 ∷ 0 ∷ 0 ∷ 0 ∷ 0 ∷ [])).1.view.tables
    ≡ machine
unfolding advance set_worker faulty_exec faulty_prepare faulty_step effect find_where update_where
    balance_deposit product_update_price all_where ◌+ℤ◌
undone = refl

-- A library like `faulty`, but one whose failing statement rolls the open transaction back.
abbrev harsh_step : Sql → Db → Step × Db
harsh_step sql d =
    let (s, d') = faulty_step sql d in
    elim s [
      | error ↦ (error, record d' { view = rolled_back d'.view })
      | row r ↦ (row r, d')
      | done ↦ (done, d')
    ]

abbrev harsh : Sqlite
harsh = record faulty { step_db = harsh_step }

-- The worker 1 reads a balance within the transaction of worker 0, and its statement fails.
abbrev reading : Workers
reading =
    set_worker (set_worker at_rest 0 (service (ServiceCall.deposit (pos 1) (pos 100)))) 1
      (service (ServiceCall.get_balance (pos 1)))

abbrev broken_into : Db
broken_into =
    let d : Db = record {
      view = idle machine true;
      faults = false ∷ false ∷ false ∷ false ∷ true ∷ [];
    } in
    (turns harsh reading d (0 ∷ 0 ∷ 0 ∷ 0 ∷ 1 ∷ 1 ∷ 1 ∷ 0 ∷ 0 ∷ 0 ∷ 0 ∷ 0 ∷ [])).1

-- The deposit is in the books, and not on the balance.
half_done :
    (balance_of (pos 1) broken_into.view.tables.users ≡ pos 300)
    × (booked (pos 1) broken_into.view.tables.transactions ≡ pos 400)
unfolding advance set_worker faulty_exec faulty_prepare faulty_step effect find_where update_where
    balance_deposit balance_get all_where booked ◌+ℤ◌
half_done = (refl, refl)

abbrev Fits : Workers → Db → List ℕ → Type 0
Fits ws d [] = Unit
Fits ws d (i ∷ schedule) =
    let (m, d') = advance faulty (ws i) d in
    InRange d.view.tables × Fits (set_worker ws i m) d' schedule

turns-Reach :
    (d₀ : Db) (ws : Workers) (d : Db) (schedule : List ℕ)
    → Reach faulty faulty-IsSqlite d₀ ws d
    → Fits ws d schedule
    → Reach faulty faulty-IsSqlite d₀ (turns faulty ws d schedule).0 (turns faulty ws d schedule).1
turns-Reach d₀ ws d [] r fits = r
turns-Reach d₀ ws d (i ∷ schedule) r fits =
    let (m, d') = advance faulty (ws i) d in
    turns-Reach d₀ (set_worker ws i m) d' schedule (calls r fits.0 i) fits.1

both-Reach : (d : Db) → Reach faulty faulty-IsSqlite d both d
unfolding set_worker
both-Reach d =
    takes (takes none_yet 0 refl (ServiceCall.deposit (pos 1) (pos 100))) 1 refl
      (ServiceCall.update_price (pos 1) (pos 700))

both-Fits : Fits both (calm (idle machine true)) (0 ∷ 1 ∷ 1 ∷ 0 ∷ 0 ∷ [])
unfolding advance set_worker faulty_exec faulty_prepare faulty_step effect find_where update_where
    balance_deposit product_update_price all_where ◌+ℤ◌
both-Fits = (omega arith, (omega arith, (omega arith, (omega arith, (omega arith, tt)))))

-- A file with these tables.
abbrev opener : Opener faulty
opener = record {
  open_db = λ path. some (calm (idle machine false));
  setup_db = λ d. (true, record d { view = record d.view { foreign_keys = true } });
}

opened_at : (d : Db) → some (calm (idle machine false)) ≡ some d → calm (idle machine false) ≡ d
opened_at d h = cc

abbrev opener-IsOpener : IsOpener faulty-IsSqlite opener
opener-IsOpener = record {
  stored = λ path. machine;
  open_law = λ path d h. (false, ap (λ (x : Db). x.view) (sym (opened_at d h)));
  setup_law = λ d t fk h. (true, ap (λ (v : View). record v { foreign_keys = true }) h, inr refl);
}

started : db_init opener (some (codes "data/sshnack.db")) ≡ some (calm (idle machine true))
unfolding db_init
started = refl

interleaved-IsBalanced_example :
    IsBalanced
      (durable (turns faulty both (calm (idle machine true)) (0 ∷ 1 ∷ 1 ∷ 0 ∷ 0 ∷ [])).1.view)
interleaved-IsBalanced_example =
    interleaved-IsBalanced faulty faulty-IsSqlite faulty-IsSteady opener opener-IsOpener
      (some (codes "data/sshnack.db")) (calm (idle machine true)) started machine-IsBalanced
      (turns-Reach (calm (idle machine true)) both (calm (idle machine true))
        (0 ∷ 1 ∷ 1 ∷ 0 ∷ 0 ∷ []) (both-Reach (calm (idle machine true))) both-Fits)
