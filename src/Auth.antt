-- ===== src/Auth.antt =====
-- server/src/api/auth.c: who a bearer token stands for.
pub mod Laws
mod Tests
use sshnack.Base.{Bool, Option, none, some, [], ◌∷◌, if◌then◌else◌, ◌&&◌}
use sshnack.Base.Int.{ℤ, pos, ltb_ℤ, to_int32}
use sshnack.Base.Text.{Text, str_eq}
use sshnack.Base.Number.{strtol}

pub data AuthRole : Type 0 where
  auth_none auth_user auth_admin : AuthRole

pub record AuthInfo : Type 0 where
  pub role : AuthRole
  pub user_id : ℤ

abbrev pub nobody : AuthInfo
nobody = record { role = auth_none; user_id = pos 0 }

abbrev pub is_empty : Text → Bool
is_empty [] = Bool.true
is_empty (_ ∷ _) = Bool.false

-- The token as a user's number. `(int) id` keeps the low 32 bits of the `long`.
unfoldable pub user_of : Text → AuthInfo
user_of token =
    let (id, end) = strtol token in
    if is_empty end && ltb_ℤ (pos 0) id
    then record { role = auth_user; user_id = to_int32 id }
    else nobody

-- `auth_parse`; a NULL token is `none`.
unfoldable pub auth_parse : Option Text → Text → AuthInfo
auth_parse none admin_token = nobody
auth_parse (some []) admin_token = nobody
auth_parse (some (c ∷ token)) admin_token =
    if str_eq (c ∷ token) admin_token
    then record { role = auth_admin; user_id = pos 0 }
    else user_of (c ∷ token)
