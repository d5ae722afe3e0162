-- ===== src/Services/Users/Laws.antt =====
-- A fingerprint gets a number once, and keeps it.
use sshnack.Base.{◌≡◌, Bool, ◌⊎◌, arith, none, some}
use sshnack.Base.Int.{ℤ, pos, ◌+ℤ◌, to_int32}
use sshnack.Base.Text.{Text, str_eq_refl}
use sshnack.Tables.{User, Tables, find_where, fingerprint_is}
use sshnack.Tables.Rows.{find_where-append}
use sshnack.Tables.Statements.{effect, add_user}
use sshnack.Sqlite.{View, Sqlite, IsSqlite, run, column_int}
use sshnack.Sqlite.Logic.{Wp, Wp-sound}
use sshnack.Services.Common.{failure, idle}
use sshnack.Services.Users.{users_lookup}

abbrev pub new_user : Text → Tables → User
new_user fp t = record { user_id = t.users_seq +ℤ pos 1; fingerprint = some fp; balance = pos 0 }

-- The number of a fingerprint, and the tables in which it has one.
abbrev pub enrolled : Text → Tables → ℤ × Tables
enrolled fp t = elim (find_where (fingerprint_is fp) t.users) [
  | none ↦ ((new_user fp t).user_id, add_user (new_user fp t) t)
  | some u ↦ (u.user_id, t)
]

abbrev pub Enrolled : ℤ × Tables → Tables → Bool → ℤ → View → Type 0
Enrolled (uid, after) before fk rc v =
    ((rc ≡ to_int32 uid) × (v ≡ idle after fk)) ⊎ ((rc ≡ failure) × (v ≡ idle before fk))

users_lookup-Wp :
    (fp : Text) (t : Tables) (fk : Bool)
    → Wp (users_lookup fp) (Enrolled (enrolled fp t) t fk) (idle t fk)
unfolding Wp users_lookup effect column_int
users_lookup-Wp fp t fk = ground arith

-- A second lookup gives the number of the first and adds nobody.
pub enrolled_again : (fp : Text) (t : Tables) → enrolled fp (enrolled fp t).1 ≡ enrolled fp t
enrolled_again fp t =
    ground (arith, find_where-append (fingerprint_is fp) t.users (new_user fp t), str_eq_refl fp)

module _ (e : Sqlite) (laws : IsSqlite e) (d : e.Db) (t : Tables) (fk : Bool) where
  -- Whatever the library does within its laws, on an idle connection: a lookup returns the number of
  -- the fingerprint, as an `int`, and a fingerprint that was not there has been added with a new
  -- number and a balance of 0, or it returns -1 and the tables are as they were.
  pub users_lookup_atomic :
      (fp : Text)
      → laws.view d ≡ idle t fk
      → let (rc, d') = run e (users_lookup fp) d in Enrolled (enrolled fp t) t fk rc (laws.view d')
  users_lookup_atomic fp h =
      Wp-sound e laws (Enrolled (enrolled fp t) t fk) (users_lookup fp) d
        (rw h (users_lookup-Wp fp t fk))
