-- ===== src/Config/Tests.antt =====
-- The two programs under a small environment.
use sshnack.Base.{◌≡◌, ◌≢◌, none, some, List, [], ◌∷◌, if◌then◌else◌}
use sshnack.Base.Int.{pos, ◌<ℤ◌}
use sshnack.Base.Text.{Text, codes, str_eq}
use sshnack.Base.Number.{print_int}
use sshnack.Auth.{auth_user, auth_parse}
use sshnack.Config.{Environment}
use sshnack.Config.Server.{load_config}
use sshnack.Config.Tui.{load_tui_config, tui_from_env, set_user, user_args}
use sshnack.Config.Laws.{IsUsable, load_config-IsUsable, client_identity}

abbrev shell : Environment
shell name = if str_eq name (codes "SSHNACK_PORT") then some (codes "99999") else none

abbrev arguments : List Text
arguments = codes "--db" ∷ codes "--port" ∷ codes "80" ∷ codes "--num-workers" ∷ []

load_config-IsUsable_example : IsUsable (load_config shell arguments)
load_config-IsUsable_example = load_config-IsUsable shell arguments

some_digits : print_int (load_tui_config shell arguments).user_id [] ≢ []
unfolding load_tui_config tui_from_env set_user user_args str_eq print_int
some_digits e = cc

client_identity_example :
    let uid = (load_tui_config shell arguments).user_id in
    (pos 0 <ℤ uid)
    × (auth_parse (some (print_int uid [])) [] ≡ record { role = auth_user; user_id = uid })
client_identity_example = client_identity shell arguments [] some_digits
