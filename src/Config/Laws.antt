-- ===== src/Config/Laws.antt =====
-- What a configuration is like, whatever the environment and the arguments are.
use sshnack.Base.{
  ◌≡◌, ◌≢◌, if◌then◌else◌, ℕ, ◌≤◌, true, false, none, some, Option, List, [], ◌∷◌, arith, length,
  length-take, take, Bool,
}
use sshnack.Base.Int.{negsuc, to_int32-IsInt, ℤ, pos, ◌<ℤ◌, ◌≤ℤ◌, IsInt}
use sshnack.Base.Text.{Text, codes, str_eq}
use sshnack.Base.Number.{print_int, strtol, atoi}
use sshnack.Config.{Environment, is_port, is_count, checked}
use sshnack.Auth.{auth_user, auth_parse}
use sshnack.Auth.Laws.{auth_parse-print_int}
use sshnack.Config.Server.{
  env_text, ServerConfig, env_number, from_env, apply_arg, apply_args, load_config,
}
use sshnack.Config.Tui.{load_tui_config, tui_from_env, user_args, set_user}

abbrev pub IsPort : ℤ → Type 0
IsPort v = (pos 0 <ℤ v) × (v ≤ℤ pos 65535)

-- Ports that exist, at least one worker, and texts that fit their buffers.
pub record IsUsable (cfg : ServerConfig) : Type 0 where
  pub token : length cfg.admin_token ≤ 127
  pub path : length cfg.db_path ≤ 4095
  pub public_port : IsPort cfg.port
  pub private_port : IsPort cfg.internal_port
  pub workers : pos 0 <ℤ cfg.num_workers
  pub queue : pos 0 <ℤ cfg.backlog

checked-IsPort : (before v : ℤ) → IsPort before → IsPort (checked is_port before v)
checked-IsPort before v h = ground arith

checked_count : (before v : ℤ) → pos 0 <ℤ before → pos 0 <ℤ checked is_count before v
checked_count before v h = ground arith

env_number-IsPort :
    (default : ℤ) (o : Option Text) → IsPort default → IsPort (env_number is_port default o)
unfolding env_number
env_number-IsPort default none h = h
env_number-IsPort default (some s) h = checked-IsPort default (atoi s) h

env_number_count :
    (default : ℤ) (o : Option Text) → pos 0 <ℤ default → pos 0 <ℤ env_number is_count default o
unfolding env_number
env_number_count default none h = h
env_number_count default (some s) h = checked_count default (atoi s) h

take_fits : (n : ℕ) (s : Text) → length (take n s) ≤ n
take_fits n s = omega (arith, length-take n s)

from_env-IsUsable : (getenv : Environment) → IsUsable (from_env getenv)
unfolding from_env
from_env-IsUsable getenv = record {
  token = take_fits 127 (env_text (codes "admin") (getenv (codes "SSHNACK_ADMIN_TOKEN")));
  path = take_fits 4095 (env_text (codes "data/sshnack.db") (getenv (codes "SSHNACK_DB_PATH")));
  public_port = env_number-IsPort (pos 8080) (getenv (codes "SSHNACK_PORT")) (omega arith);
  private_port =
      env_number-IsPort (pos 8081) (getenv (codes "SSHNACK_INTERNAL_PORT")) (omega arith);
  workers = env_number_count (pos 4) (getenv (codes "SSHNACK_NUM_WORKERS")) (omega arith);
  queue = env_number_count (pos 10) (getenv (codes "SSHNACK_BACKLOG")) (omega arith);
}

if-IsUsable :
    (b : Bool) (x y : ServerConfig) → IsUsable x → IsUsable y → IsUsable (if b then x else y)
if-IsUsable true x y h k = h
if-IsUsable false x y h k = k

apply_arg-IsUsable :
    (arg value : Text) (cfg : ServerConfig) → IsUsable cfg → IsUsable (apply_arg arg value cfg)
unfolding apply_arg
apply_arg-IsUsable arg value cfg h =
    if-IsUsable (str_eq arg (codes "--admin-token")) _ _
      (record {
        token = take_fits 127 value;
        path = h.path;
        public_port = h.public_port;
        private_port = h.private_port;
        workers = h.workers;
        queue = h.queue;
      })
      (if-IsUsable (str_eq arg (codes "--db")) _ _
        (record {
          token = h.token;
          path = take_fits 4095 value;
          public_port = h.public_port;
          private_port = h.private_port;
          workers = h.workers;
          queue = h.queue;
        })
        (if-IsUsable (str_eq arg (codes "--port")) _ _
          (record {
            token = h.token;
            path = h.path;
            public_port = checked-IsPort cfg.port (atoi value) h.public_port;
            private_port = h.private_port;
            workers = h.workers;
            queue = h.queue;
          })
          (if-IsUsable (str_eq arg (codes "--internal-port")) _ _
            (record {
              token = h.token;
              path = h.path;
              public_port = h.public_port;
              private_port = checked-IsPort cfg.internal_port (atoi value) h.private_port;
              workers = h.workers;
              queue = h.queue;
            })
            (if-IsUsable (str_eq arg (codes "--num-workers")) _ _
              (record {
                token = h.token;
                path = h.path;
                public_port = h.public_port;
                private_port = h.private_port;
                workers = checked_count cfg.num_workers (atoi value) h.workers;
                queue = h.queue;
              })
              (if-IsUsable (str_eq arg (codes "--backlog")) _ _
                (record {
                  token = h.token;
                  path = h.path;
                  public_port = h.public_port;
                  private_port = h.private_port;
                  workers = h.workers;
                  queue = checked_count cfg.backlog (atoi value) h.queue;
                })
                h)))))

apply_args-IsUsable :
    (args : List Text) (cfg : ServerConfig) → IsUsable cfg → IsUsable (apply_args args cfg)
unfolding apply_args
apply_args-IsUsable [] cfg h = h
apply_args-IsUsable (arg ∷ []) cfg h = h
apply_args-IsUsable (arg ∷ value ∷ args) cfg h =
    apply_args-IsUsable (value ∷ args) _ (apply_arg-IsUsable arg value cfg h)

-- Whatever the environment and the arguments are, the server starts with two ports between 1 and
-- 65535, at least one worker, a positive backlog, and texts that fit their buffers.
pub load_config-IsUsable :
    (getenv : Environment) (args : List Text) → IsUsable (load_config getenv args)
unfolding load_config
load_config-IsUsable getenv args = apply_args-IsUsable args _ (from_env-IsUsable getenv)

-- The number of a user, as the client sends it.
abbrev pub IsUser : ℤ → Type 0
IsUser v = (pos 0 <ℤ v) × IsInt v

checked-IsUser : (before : ℤ) (s : Text) → IsUser before → IsUser (checked is_count before (atoi s))
unfolding atoi
checked-IsUser before s h = ground (arith, to_int32-IsInt (strtol s).0)

set_user-IsUser : (default : ℤ) (o : Option Text) → IsUser default → IsUser (set_user default o)
unfolding set_user
set_user-IsUser default none h = h
set_user-IsUser default (some []) h = h
set_user-IsUser default (some (c ∷ s)) h = checked-IsUser default (c ∷ s) h

if-IsUser : (b : Bool) (x y : ℤ) → IsUser x → IsUser y → IsUser (if b then x else y)
if-IsUser true x y h k = h
if-IsUser false x y h k = k

user_args-IsUser : (args : List Text) (v : ℤ) → IsUser v → IsUser (user_args args v)
unfolding user_args
user_args-IsUser [] v h = h
user_args-IsUser (arg ∷ []) v h = h
user_args-IsUser (arg ∷ value ∷ args) v h =
    if-IsUser (str_eq arg (codes "--user")) _ _ (user_args-IsUser args _ (checked-IsUser v value h))
      (user_args-IsUser (value ∷ args) v h)

load_tui_config-IsUser :
    (getenv : Environment) (args : List Text) → IsUser (load_tui_config getenv args).user_id
unfolding load_tui_config tui_from_env
load_tui_config-IsUser getenv args =
    user_args-IsUser args _
      (set_user-IsUser (pos 67) (getenv (codes "SSHNACK_USER_ID")) (omega arith))

pub user_token :
    (v : ℤ) (admin_token : Text)
    → IsUser v
    → print_int v [] ≢ admin_token
    → auth_parse (some (print_int v [])) admin_token ≡ record { role = auth_user; user_id = v }
user_token (pos n) admin_token h other =
    auth_parse-print_int n admin_token (omega arith) (omega arith) other
user_token (negsuc n) admin_token h other = absurd (omega arith)

-- Whatever the environment and the arguments of the client are, the server takes the token that the
-- client prints from its configuration for the user of that configuration, whose number is
-- positive; the digits are not the server's admin token.
pub client_identity :
    (getenv : Environment) (args : List Text) (admin_token : Text)
    → let uid = (load_tui_config getenv args).user_id in
      print_int uid [] ≢ admin_token
      → (pos 0 <ℤ uid)
        × (auth_parse (some (print_int uid [])) admin_token
            ≡ record { role = auth_user; user_id = uid })
client_identity getenv args admin_token other =
    let h = load_tui_config-IsUser getenv args in
    (h.0, user_token (load_tui_config getenv args).user_id admin_token h other)
