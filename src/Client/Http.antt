-- ===== src/Client/Http.antt =====
-- tui/src/api_client.c: `write_cb`, `do_request` and `api_client_init`. libcurl is a parameter: what
-- a transfer gives for the options that are set.
use sshnack.Base.{
  ℕ, ◌+◌, Bool, true, false, Option, none, some, List, [], ◌∷◌, ◌++◌, if◌then◌else◌, length, take,
  ◌==◌,
}
use sshnack.Base.Int.{ℤ}
use sshnack.Base.Text.{Text, codes, str_eq}
use sshnack.Base.Number.{print_int}
use sshnack.App.{Status, api_ok, api_err_network}

-- `api_client_t`, but for the handle of curl.
pub record ApiClient : Type 0 where
  pub base_url : Text
  pub user_id : ℤ
  pub admin_token : Text

-- The options of a transfer: the method, CURLOPT_URL, CURLOPT_POSTFIELDS and CURLOPT_HTTPHEADER.
pub record HttpRequest : Type 0 where
  pub method : Text
  pub url : Text
  pub post_fields : Option Text
  pub headers : List Text

-- What `curl_easy_perform` does: the pieces that it hands to `write_cb`, whether it succeeds if
-- `write_cb` takes them all, and CURLINFO_RESPONSE_CODE.
pub record Transfer : Type 0 where
  pub succeeds : Bool
  pub status : ℕ
  pub pieces : List Text

pub record Curl : Type 1 where
  pub World : Type 0
  pub perform : HttpRequest → World → Transfer × World

-- `buf_t`; the data is `none` for NULL.
abbrev pub Buf : Type 0
Buf = Option Text

abbrev pub data_of : Buf → Text
data_of none = []
data_of (some s) = s

-- `write_cb`: its return and the buffer after it; `gives` is `realloc` by size.
unfoldable pub write_cb : (ℕ → Bool) → Text → Buf → ℕ × Buf
write_cb gives piece b =
    if gives (length (data_of b) + length piece + 1)
    then (length piece, some (data_of b ++ piece))
    else (0, b)

-- The pieces one after the other; a return that is not the size of the piece ends the transfer.
unfoldable pub receive : (ℕ → Bool) → List Text → Buf → Option Buf
unfolding write_cb
receive gives [] b = some b
receive gives (piece ∷ pieces) b =
    let (taken, b') = write_cb gives piece b in
    let rest = receive gives pieces b' in if taken == length piece then rest else none

-- `body ? body : ""` for a POST, and the body of any other method but GET.
unfoldable pub fields_for : Text → Option Text → Option Text
unfolding str_eq
fields_for method body =
    if str_eq method (codes "GET")
    then none
    else if str_eq method (codes "POST")
    then some (data_of body)
    else body

unfoldable pub bearer_line : ApiClient → Bool → Text
bearer_line c true = take 199 (codes "Authorization: Bearer " ++ c.admin_token)
bearer_line c false = take 199 (codes "Authorization: Bearer " ++ print_int c.user_id [])

unfoldable pub options_for : ApiClient → Text → Text → Option Text → Bool → HttpRequest
unfolding fields_for bearer_line
options_for c method path body use_admin = record {
  method = method;
  url = take 511 (c.base_url ++ path);
  post_fields = fields_for method body;
  headers = elim body [
    | none ↦ bearer_line c use_admin ∷ []
    | some _ ↦ bearer_line c use_admin ∷ codes "Content-Type: application/json" ∷ []
  ];
}

-- `curl_easy_perform` with `write_cb`: the buffer and the status, or `none` where it is not CURLE_OK.
abbrev pub performed : (ℕ → Bool) → Transfer → Option (Buf × ℕ)
performed gives x =
    if x.succeeds
    then elim (receive gives x.pieces none) [ none ↦ none | some b ↦ some (b, x.status) ]
    else none

module _ (curl : Curl) (gives : ℕ → Bool) where
  -- `none` for API_ERR_NETWORK.
  unfoldable pub do_request :
      ApiClient → Text → Text → Option Text → Bool → curl.World → Option (Buf × ℕ) × curl.World
  unfolding options_for receive
  do_request c method path body use_admin w =
      let (x, w') = curl.perform (options_for c method path body use_admin) w in
      (performed gives x, w')

-- `api_client_init`, whose last argument is whether `curl_easy_init` gives a handle.
unfoldable pub api_client_init : Text → ℤ → Text → Bool → Status × ApiClient
api_client_init base_url user_id admin_token handle = (
  if handle then api_ok else api_err_network,
  record { base_url = take 255 base_url; user_id = user_id; admin_token = take 127 admin_token },
)
