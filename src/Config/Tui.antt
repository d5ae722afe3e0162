-- ===== src/Config/Tui.antt =====
-- `load_config` of tui/src/tui.c.
use sshnack.Base.{Option, none, some, List, [], ◌∷◌, if◌then◌else◌}
use sshnack.Base.Int.{ℤ, pos}
use sshnack.Base.Text.{Text, codes, str_eq}
use sshnack.Base.Number.{atoi}
use sshnack.Config.{Environment, copied, is_count, checked}

pub record TuiConfig : Type 0 where
  pub base_url : Text
  pub user_id : ℤ
  pub admin_token : Text

-- A variable that is not set or empty leaves the default.
abbrev pub set_text : Text → Option Text → Text
set_text default none = default
set_text default (some []) = default
set_text default (some (c ∷ s)) = c ∷ s

unfoldable pub set_user : ℤ → Option Text → ℤ
unfolding atoi
set_user default none = default
set_user default (some []) = default
set_user default (some (c ∷ s)) = checked is_count default (atoi (c ∷ s))

unfoldable pub tui_from_env : Environment → TuiConfig
unfolding set_user
tui_from_env getenv = record {
  base_url =
      copied 256 (set_text (codes "http://127.0.0.1:8080") (getenv (codes "SSHNACK_SERVER_URL")));
  user_id = set_user (pos 67) (getenv (codes "SSHNACK_USER_ID"));
  admin_token = copied 128 (set_text (codes "admin") (getenv (codes "SSHNACK_ADMIN_TOKEN")));
}

-- The loop over the arguments, which goes past the value of `--user`.
unfoldable pub user_args : List Text → ℤ → ℤ
unfolding atoi str_eq
user_args [] user_id = user_id
user_args (arg ∷ []) user_id = user_id
user_args (arg ∷ value ∷ args) user_id =
    let taken = user_args args (checked is_count user_id (atoi value)) in
    let passed = user_args (value ∷ args) user_id in
    if str_eq arg (codes "--user") then taken else passed

unfoldable pub load_tui_config : Environment → List Text → TuiConfig
unfolding tui_from_env user_args
load_tui_config getenv args =
    let cfg = tui_from_env getenv in record cfg { user_id = user_args args cfg.user_id }
