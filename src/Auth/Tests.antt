-- ===== src/Auth/Tests.antt =====
-- Tokens that `auth_parse` reads, and its theorems at concrete tokens.
use sshnack.Base.{◌≡◌, ◌≢◌, refl, some, [], arith, ◌+◌, ◌*◌, ◌^◌}
use sshnack.Base.Int.{pos, to_int32}
use sshnack.Base.Text.{codes, str_eq}
use sshnack.Base.Number.{print_int, strtol, take_digits}
use sshnack.Auth.{auth_parse, auth_user, nobody, user_of}
use sshnack.Auth.Laws.{auth_parse_wraps}

token_with_tail : auth_parse (some (codes "67x")) (codes "admin") ≡ nobody
unfolding auth_parse user_of strtol str_eq take_digits to_int32
token_with_tail = refl

token_negative : auth_parse (some (codes "-5")) (codes "admin") ≡ nobody
unfolding auth_parse user_of strtol str_eq take_digits to_int32
token_negative = refl

token_spaces :
    auth_parse (some (codes " +67")) (codes "admin") ≡ record { role = auth_user; user_id = pos 67 }
unfolding auth_parse user_of strtol str_eq take_digits to_int32
token_spaces = refl

not_admin : print_int (pos 67) [] ≢ codes "admin"
unfolding print_int
not_admin e = cc

not_admin_long : print_int (pos (67 + 1 * 2 ^ 32)) [] ≢ codes "admin"
unfolding print_int
not_admin_long e = cc

auth_parse_wraps_example :
    auth_parse (some (print_int (pos (67 + 1 * 2 ^ 32)) [])) (codes "admin")
    ≡ record { role = auth_user; user_id = pos 67 }
auth_parse_wraps_example =
    auth_parse_wraps 67 1 (codes "admin") (omega arith) (omega arith) (omega arith) not_admin_long
