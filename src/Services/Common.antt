-- ===== src/Services/Common.antt =====
-- What the functions of server/src/services share: their error code, and the ROLLBACK before it.
use sshnack.Base.{Bool, none, Option, ◌≡◌, some, ◌⊎◌}
use sshnack.Base.Int.{ℤ, negsuc, pos}
use sshnack.Tables.{Tables}
use sshnack.Sqlite.{rollback, Prog, ret, ◌>>◌, sqlite_exec, View}

-- The return code -1.
abbrev pub failure : ℤ
failure = negsuc 0

-- `sqlite3_exec(db, "ROLLBACK", ...)` and a return.
abbrev pub rollback_and : {A : Type 0} → A → Prog A
rollback_and a = sqlite_exec rollback >> ret a

-- A connection between two calls: no transaction is open and no statement is pending.
abbrev pub idle : Tables → Bool → View
idle t fk = record { tables = t; saved = none; pending = 0; foreign_keys = fk }

-- How a call that changes the tables ends: with code 0 and the tables that are meant, or with -1 and
-- the tables as they were, which is the only end where nothing is meant to be done. Either way the
-- connection is idle.
abbrev pub Commits : Option Tables → Tables → Bool → ℤ → View → Type 0
Commits none before fk rc v = (rc ≡ failure) × (v ≡ idle before fk)
Commits (some after) before fk rc v =
    ((rc ≡ pos 0) × (v ≡ idle after fk)) ⊎ ((rc ≡ failure) × (v ≡ idle before fk))
