-- ===== src/Handlers.antt =====
-- server/src/api/router/handlers; `handle_get_stock` and `handle_get_slow` are in Stock. What a handler
-- sends is a `Reply`, the arguments of its `send_json`: the status and the JSON text.
pub mod Laws
pub mod Lookup
pub mod Send
pub mod Stock
mod Tests
use sshnack.Base.{
  ℕ, ◌==◌, ◌-◌, Bool, true, false, Option, none, some, List, [], ◌∷◌, ◌++◌, if◌then◌else◌, not,
  take,
}
use sshnack.Base.Int.{ℤ, pos, eqb_ℤ}
use sshnack.Base.Text.{Text, codes}
use sshnack.Base.Number.{scan_int, strip_prefix, skip_spaces, print_int}
use sshnack.Auth.{AuthRole, auth_none, auth_user, auth_admin}
use sshnack.Router.{Request}
use sshnack.Sqlite.{Prog, ret, ◌>>=◌}
use sshnack.Services.Common.{failure}
use sshnack.Services.Balance.{balance_get, balance_deposit, balance_reset, balance_not_found}
use sshnack.Services.Orders.{orders_purchase}
use sshnack.Services.Products.{product_restock, product_update_price}
use sshnack.Services.Users.{users_lookup}

pub record Reply : Type 0 where
  pub status : ℕ
  pub body : Text

abbrev pub json : ℕ → Text → Reply
json status body = record { status = status; body = body }

abbrev pub unauthorized : Reply
unauthorized = json 401 (codes "{\"error\":\"unauthorized\"}")

abbrev pub forbidden_reply : Reply
forbidden_reply = json 403 (codes "{\"error\":\"forbidden\"}")

abbrev pub invalid_path : Reply
invalid_path = json 400 (codes "{\"error\":\"invalid path\"}")

abbrev pub internal_error : Reply
internal_error = json 500 (codes "{\"error\":\"internal error\"}")

abbrev pub ok_reply : Reply
ok_reply = json 200 (codes "{\"ok\":true}")

abbrev pub is_auth_none : AuthRole → Bool
is_auth_none auth_none = true
is_auth_none _ = false

abbrev pub is_auth_admin : AuthRole → Bool
is_auth_admin auth_admin = true
is_auth_admin _ = false

-- `if (service(...) != 0) { send_json(refused); return; } send_json(200, ok)`
abbrev pub answer : Reply → ℤ → Reply
answer refused rc = if not (eqb_ℤ rc (pos 0)) then refused else ok_reply

-- The text `{"<field>":%d}` in a buffer of 64 bytes.
abbrev pub number_body : Text → ℤ → Text
number_body prefix n = take 63 (prefix ++ print_int n (codes "}"))

unfoldable pub handle_post_restock : Request → Prog Reply
handle_post_restock req =
    if not (is_auth_admin req.auth.role)
    then ret forbidden_reply
    else elim (scan_int (codes "/stock/") req.path) [
      | none ↦ ret invalid_path
      | some slot_id ↦ elim (scan_int (codes "{\"qty\":") req.body) [
        | none ↦ ret (json 400 (codes "{\"error\":\"missing qty\"}"))
        | some qty ↦ product_restock slot_id qty >>= λ rc.
            ret (answer (json 500 (codes "{\"error\":\"restock failed\"}")) rc)
      ]
    ]

unfoldable pub handle_post_update_price : Request → Prog Reply
handle_post_update_price req =
    if not (is_auth_admin req.auth.role)
    then ret forbidden_reply
    else elim (scan_int (codes "/items/") req.path) [
      | none ↦ ret invalid_path
      | some item_id ↦ elim (scan_int (codes "{\"price_gr\":") req.body) [
        | none ↦ ret (json 400 (codes "{\"error\":\"missing price_gr\"}"))
        | some price_gr ↦ product_update_price item_id price_gr >>= λ rc.
            ret (answer (json 500 (codes "{\"error\":\"update failed\"}")) rc)
      ]
    ]

-- What is sent after `balance_get` and `balance_reset`; a code of 0 comes with a value.
abbrev pub balance_reply : Text → ℤ × Option ℤ → Reply
balance_reply prefix (rc, out) =
    if eqb_ℤ rc balance_not_found
    then json 404 (codes "{\"error\":\"user not found\"}")
    else if not (eqb_ℤ rc (pos 0))
    then internal_error
    else elim out [ none ↦ internal_error | some n ↦ json 200 (number_body prefix n) ]

unfoldable pub handle_get_balance : Request → Prog Reply
handle_get_balance req =
    if is_auth_none req.auth.role
    then ret unauthorized
    else balance_get req.auth.user_id >>= λ r. ret (balance_reply (codes "{\"balance_gr\":") r)

unfoldable pub handle_delete_balance : Request → Prog Reply
handle_delete_balance req =
    if is_auth_none req.auth.role
    then ret unauthorized
    else balance_reset req.auth.user_id >>= λ r. ret (balance_reply (codes "{\"refund_gr\":") r)

unfoldable pub handle_post_deposit : Request → Prog Reply
handle_post_deposit req =
    if is_auth_none req.auth.role
    then ret unauthorized
    else elim (scan_int (codes "{\"amount_gr\":") req.body) [
      | none ↦ ret (json 400 (codes "{\"error\":\"missing amount_gr\"}"))
      | some amount_gr ↦
          balance_deposit req.auth.user_id amount_gr >>= λ rc. ret (answer internal_error rc)
    ]

unfoldable pub handle_post_purchase : Request → Prog Reply
handle_post_purchase req =
    if is_auth_none req.auth.role
    then ret unauthorized
    else elim (scan_int (codes "{\"slot_id\":") req.body) [
      | none ↦ ret (json 400 (codes "{\"error\":\"missing slot_id\"}"))
      | some slot_id ↦ orders_purchase req.auth.user_id slot_id >>= λ rc.
          ret (answer (json 500 (codes "{\"error\":\"purchase failed\"}")) rc)
    ]

-- `%<n>[^"]`: at most `n` bytes that are not a quote.
unfoldable pub take_quoted : ℕ → Text → Text
take_quoted ℕ.zero s = []
take_quoted (ℕ.suc n) [] = []
take_quoted (ℕ.suc n) (c ∷ s) = if c == b'"' then [] else c ∷ take_quoted n s

abbrev pub nonempty : Text → Option Text
nonempty [] = none
nonempty (c ∷ s) = some (c ∷ s)

-- A space of the format, which skips any spaces, and a literal after it.
abbrev pub spaced : Text → Option Text → Option Text
spaced literal none = none
spaced literal (some s) = strip_prefix literal (skip_spaces s)

-- `sscanf(body, " {\"fingerprint\" : \"%127[^\"]\" }", fingerprint) == 1`
unfoldable pub scan_fingerprint : Text → Option Text
scan_fingerprint body =
    elim (spaced (codes "\"")
      (spaced (codes ":") (spaced (codes "{\"fingerprint\"") (some body)))) [
        | none ↦ none
        | some rest ↦ nonempty (take_quoted 127 rest)
      ]

abbrev pub lookup_reply : ℤ → Reply
lookup_reply user_id =
    if eqb_ℤ user_id failure
    then json 500 (codes "{\"error\":\"lookup failed\"}")
    else json 200 (number_body (codes "{\"user_id\":") user_id)

-- `handle_lookup_user` after its `sscanf`.
unfoldable pub answer_to : Option Text → Prog Reply
answer_to none = ret (json 400 (codes "{\"error\":\"missing fingerprint\"}"))
answer_to (some fingerprint) = users_lookup fingerprint >>= λ user_id. ret (lookup_reply user_id)

unfoldable pub handle_lookup_user : Request → Prog Reply
unfolding answer_to scan_fingerprint
handle_lookup_user req = answer_to (scan_fingerprint req.body)
