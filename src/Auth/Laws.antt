-- ===== src/Auth/Laws.antt =====
-- What `auth_parse` grants, and to which tokens.
use sshnack.Base.{◌≡◌, ◌≢◌, ◌↔◌, refl, ℕ, ◌+◌, ◌<◌, ◌^◌, ◌*◌, some, [], ◌∷◌, arith}
use sshnack.Base.Int.{pos, to_int32, to_int32_of_IsInt}
use sshnack.Base.Text.{Text, str_eq_iff}
use sshnack.Base.Number.{strtol, strtol-print_nat, print_int}
use sshnack.Auth.{auth_user, auth_admin, user_of, auth_parse}

-- The admin role is granted to the token that equals the configured one, if that is not empty, and
-- to no other.
pub auth_parse_admin :
    (token admin_token : Text)
    → ((auth_parse (some token) admin_token).role ≡ auth_admin)
      ↔ ((token ≡ admin_token) × (token ≢ []))
unfolding auth_parse user_of
auth_parse_admin [] admin_token = (λ e. absurd (ground arith), λ h. absurd (h.1 refl))
auth_parse_admin (c ∷ token) admin_token = (
  λ e. ground (arith, str_eq_iff (c ∷ token) admin_token),
  λ h. ground (arith, str_eq_iff (c ∷ token) admin_token),
)

number_token :
    (s : Text) (n : ℕ) (admin_token : Text)
    → 0 < n
    → s ≢ admin_token
    → strtol s ≡ (pos n, [])
    → auth_parse (some s) admin_token ≡ record { role = auth_user; user_id = to_int32 (pos n) }
unfolding auth_parse user_of
number_token [] n admin_token p other e = absurd (no_number e)
  where
    no_number : ¬ (strtol [] ≡ (pos n, []))
    no_number h = unfold strtol in ground arith
number_token (c ∷ s) n admin_token p other e = ground (arith, str_eq_iff (c ∷ s) admin_token, e)

-- The user number that the client prints into its header is the one that the server reads, if the
-- number is a positive `int` and its digits are not the admin token.
pub auth_parse-print_int :
    (n : ℕ) (admin_token : Text)
    → 0 < n
    → n < 2 ^ 31
    → print_int (pos n) [] ≢ admin_token
    → auth_parse (some (print_int (pos n) [])) admin_token
      ≡ record { role = auth_user; user_id = pos n }
auth_parse-print_int n admin_token p h other = rw (
  number_token (print_int (pos n) []) n admin_token p other
      (strtol-print_nat n [] (omega arith) tt),
  to_int32_of_IsInt (pos n) h,
)

-- A number beyond `int` is cut to its low 32 bits: for 0 < n < 2 ^ 31, the decimal token of each
-- n + k * 2 ^ 32 that is less than 2 ^ 63 stands for the user n, unless it is the admin token.
pub auth_parse_wraps :
    (n k : ℕ) (admin_token : Text)
    → 0 < n
    → n < 2 ^ 31
    → n + k * 2 ^ 32 < 2 ^ 63
    → print_int (pos (n + k * 2 ^ 32)) [] ≢ admin_token
    → auth_parse (some (print_int (pos (n + k * 2 ^ 32)) [])) admin_token
      ≡ record { role = auth_user; user_id = pos n }
auth_parse_wraps n k admin_token p h fits other = rw (
  number_token (print_int (pos (n + k * 2 ^ 32)) []) (n + k * 2 ^ 32) admin_token (omega arith)
      other (strtol-print_nat (n + k * 2 ^ 32) [] fits tt),
  low,
)
  where
    low : to_int32 (pos (n + k * 2 ^ 32)) ≡ pos n
    low = unfold to_int32 in ground arith
