-- ===== src/Config/Server.antt =====
-- `load_config` of server/src/server.c. What it prints to stderr is left out.
use sshnack.Base.{Bool, Option, none, some, List, [], ◌∷◌, if◌then◌else◌}
use sshnack.Base.Int.{ℤ, pos}
use sshnack.Base.Text.{Text, codes, str_eq}
use sshnack.Base.Number.{atoi}
use sshnack.Config.{Environment, copied, is_port, is_count, checked}

-- `config_t`; PATH_MAX is 4096.
pub record ServerConfig : Type 0 where
  pub admin_token : Text
  pub db_path : Text
  pub port : ℤ
  pub internal_port : ℤ
  pub num_workers : ℤ
  pub backlog : ℤ

-- A text from the environment.
abbrev pub env_text : Text → Option Text → Text
env_text default none = default
env_text default (some s) = s

-- A number from the environment.
unfoldable pub env_number : (ℤ → Bool) → ℤ → Option Text → ℤ
unfolding atoi
env_number allowed default none = default
env_number allowed default (some s) = checked allowed default (atoi s)

unfoldable pub from_env : Environment → ServerConfig
unfolding env_number
from_env getenv = record {
  admin_token = copied 128 (env_text (codes "admin") (getenv (codes "SSHNACK_ADMIN_TOKEN")));
  db_path = copied 4096 (env_text (codes "data/sshnack.db") (getenv (codes "SSHNACK_DB_PATH")));
  port = env_number is_port (pos 8080) (getenv (codes "SSHNACK_PORT"));
  internal_port = env_number is_port (pos 8081) (getenv (codes "SSHNACK_INTERNAL_PORT"));
  num_workers = env_number is_count (pos 4) (getenv (codes "SSHNACK_NUM_WORKERS"));
  backlog = env_number is_count (pos 10) (getenv (codes "SSHNACK_BACKLOG"));
}

-- One round of the loop over the arguments, at an argument and the one behind it.
unfoldable pub apply_arg : Text → Text → ServerConfig → ServerConfig
unfolding atoi str_eq
apply_arg arg value cfg =
    if str_eq arg (codes "--admin-token")
    then record cfg { admin_token = copied 128 value }
    else if str_eq arg (codes "--db")
    then record cfg { db_path = copied 4096 value }
    else if str_eq arg (codes "--port")
    then record cfg { port = checked is_port cfg.port (atoi value) }
    else if str_eq arg (codes "--internal-port")
    then record cfg { internal_port = checked is_port cfg.internal_port (atoi value) }
    else if str_eq arg (codes "--num-workers")
    then record cfg { num_workers = checked is_count cfg.num_workers (atoi value) }
    else if str_eq arg (codes "--backlog")
    then record cfg { backlog = checked is_count cfg.backlog (atoi value) }
    else cfg

-- The loop. The value of an option is looked at as an option too.
unfoldable pub apply_args : List Text → ServerConfig → ServerConfig
unfolding apply_arg
apply_args [] cfg = cfg
apply_args (arg ∷ []) cfg = cfg
apply_args (arg ∷ value ∷ args) cfg = apply_args (value ∷ args) (apply_arg arg value cfg)

unfoldable pub load_config : Environment → List Text → ServerConfig
unfolding from_env apply_args
load_config getenv args = apply_args args (from_env getenv)
