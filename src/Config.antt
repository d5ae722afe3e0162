-- ===== src/Config.antt =====
-- The two functions `load_config`: of server/src/server.c and of tui/src/tui.c. The environment is a
-- parameter, and the arguments are those behind the name of the program.
pub mod Server
pub mod Tui
pub mod Laws
mod Tests
use sshnack.Base.{ℕ, ◌-◌, Bool, Option, List, take, if◌then◌else◌, ◌&&◌}
use sshnack.Base.Int.{ℤ, pos, ltb_ℤ, leb_ℤ}
use sshnack.Base.Text.{Text}

-- `getenv`
abbrev pub Environment : Type 0
Environment = Text → Option Text

-- `strncpy` into a buffer of `size` bytes, with the NUL after it.
abbrev pub copied : ℕ → Text → Text
copied size s = take (size - 1) s

abbrev pub is_port : ℤ → Bool
is_port v = ltb_ℤ (pos 0) v && leb_ℤ v (pos 65535)

abbrev pub is_count : ℤ → Bool
is_count v = ltb_ℤ (pos 0) v

-- The new value where it is allowed, else the one before.
abbrev pub checked : (ℤ → Bool) → ℤ → ℤ → ℤ
checked allowed before v = if allowed v then v else before
