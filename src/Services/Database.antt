-- ===== src/Services/Database.antt =====
-- `db_init` of server/src/db/db.c. What `sqlite3_open` and the exec of the two PRAGMA give is a
-- parameter, an `Opener`, with what is documented of them as `IsOpener`.
use mathlib.Core.Path.{subst}
use sshnack.Base.{refl, ◌≡◌, ◌⊎◌, Bool, true, false, Option, none, some}
use sshnack.Base.Text.{Text, codes}
use sshnack.Tables.{Tables}
use sshnack.Sqlite.{Sqlite, IsSqlite}
use sshnack.Services.Common.{idle}

-- `none` is a code other than SQLITE_OK.
pub record Opener (e : Sqlite) : Type 0 where
  pub open_db : Text → Option e.Db
  pub setup_db : e.Db → Bool × e.Db

abbrev pub or_default : Option Text → Text
or_default none = codes "sshnack.db"
or_default (some path) = path

-- A setup that fails is only printed.
unfoldable pub db_init : {e : Sqlite} → Opener e → Option Text → Option e.Db
db_init o path = elim (o.open_db (or_default path)) [
  | none ↦ none
  | some db ↦ let (ok, db) = o.setup_db db in some db
]

-- A connection that is opened is idle, over the tables of its file; and the setup changes no table,
-- and turns foreign keys on where it succeeds.
pub record IsOpener {e : Sqlite} (laws : IsSqlite e) (o : Opener e) : Type 0 where
  pub stored : Text → Tables
  pub open_law :
      (path : Text) (d : e.Db)
      → o.open_db path ≡ some d
      → (fk : Bool) × (laws.view d ≡ idle (stored path) fk)
  pub setup_law :
      (d : e.Db) (t : Tables) (fk : Bool)
      → laws.view d ≡ idle t fk
      → (fk' : Bool) × (laws.view (o.setup_db d).1 ≡ idle t fk')
        × (((o.setup_db d).0 ≡ false) ⊎ (fk' ≡ true))

-- The server begins on an idle connection.
pub db_init-idle :
    {e : Sqlite} (laws : IsSqlite e) (o : Opener e) (opens : IsOpener laws o) (path : Option Text)
    (d : e.Db)
    → db_init o path ≡ some d
    → (fk : Bool) × (laws.view d ≡ idle (opens.stored (or_default path)) fk)
unfolding db_init
db_init-idle {e} laws o opens path d h = from (o.open_db (or_default path)) refl h
  where
    from :
        (od : Option e.Db)
        → o.open_db (or_default path) ≡ od
        → (elim od [ none ↦ none | some db ↦ some (o.setup_db db).1 ]) ≡ some d
        → (fk : Bool) × (laws.view d ≡ idle (opens.stored (or_default path)) fk)
    from none q k = absurd (cc)
    from (some db) q k =
        let (fk, start) = opens.open_law (or_default path) db q in
        let (fk', same, _) = opens.setup_law db (opens.stored (or_default path)) fk start in
        (
          fk',
          subst (λ x. laws.view x ≡ idle (opens.stored (or_default path)) fk')
              {x = (o.setup_db db).1} {y = d} (cc) same,
        )
