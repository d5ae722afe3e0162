-- ===== src/Api.antt =====
-- server/src/api/api.c: from the bytes of a request to the request. The text ends at the first NUL.
pub mod Laws
mod Tests
use sshnack.Base.{
  ℕ, ◌==◌, ◌+◌, Bool, true, false, Option, none, some, List, [], ◌∷◌, if◌then◌else◌, length, take,
  drop, leb, ◌&&◌, not,
}
use sshnack.Base.Text.{Text, codes, str_eq}
use sshnack.Base.Number.{is_space, skip_spaces, strip_prefix}
use sshnack.Auth.{nobody, auth_parse}
use sshnack.Router.{Method, get, post, patch, delete, Request}

unfoldable pub parse_method : Text → Option Method
unfolding str_eq
parse_method s =
    if str_eq s (codes "GET")
    then some get
    else if str_eq s (codes "POST")
    then some post
    else if str_eq s (codes "PATCH")
    then some patch
    else if str_eq s (codes "DELETE")
    then some delete
    else none

-- At most `n` bytes up to a space, and the text behind them.
unfoldable pub take_word : ℕ → Text → Text × Text
take_word ℕ.zero s = ([], s)
take_word (ℕ.suc n) [] = ([], [])
take_word (ℕ.suc n) (c ∷ s) =
    let more = take_word n s in if is_space c then ([], c ∷ s) else (c ∷ more.0, more.1)

abbrev pub word_read : Text × Text → Option (Text × Text)
word_read ([], rest) = none
word_read (c ∷ w, rest) = some (c ∷ w, rest)

-- `%<n>s`
unfoldable pub scan_word : ℕ → Text → Option (Text × Text)
unfolding take_word
scan_word n s = word_read (take_word n (skip_spaces s))

-- `strstr(s, "\r\n")`: the text before and behind the first end of a line.
unfoldable pub find_crlf : Text → Option (Text × Text)
find_crlf [] = none
find_crlf (c ∷ s) = elim (strip_prefix (13 ∷ 10 ∷ []) (c ∷ s)) [
  | some rest ↦ some ([], rest)
  | none ↦ elim (find_crlf s) [ none ↦ none | some (line, rest) ↦ some (c ∷ line, rest) ]
]

abbrev pub lower : ℕ → ℕ
lower c = if leb b'A' c && leb c b'Z' then c + 32 else c

-- `strncasecmp` with a prefix, and the text behind it.
unfoldable pub strip_nocase : Text → Text → Option Text
strip_nocase [] s = some s
strip_nocase (_ ∷ _) [] = none
strip_nocase (a ∷ p) (c ∷ s) = if lower a == lower c then strip_nocase p s else none

abbrev pub bearer_prefix : Text
bearer_prefix = codes "Authorization: Bearer "

-- The token of a line, which replaces one of a line before it.
unfoldable pub bearer_of : Text → Text → Text
unfolding strip_nocase
bearer_of bearer line = elim (strip_nocase bearer_prefix line) [
  | none ↦ bearer
  | some token ↦ take 127 token
]

-- The loop over the lines of the header, with fuel for its rounds: the token and the body.
unfoldable pub headers : ℕ → Text → Text → Text × Text
unfolding find_crlf bearer_of
headers ℕ.zero bearer p = (bearer, p)
headers (ℕ.suc fuel) bearer [] = (bearer, [])
headers (ℕ.suc fuel) bearer (c ∷ p) = elim (strip_prefix (13 ∷ 10 ∷ []) (c ∷ p)) [
  | some body ↦ (bearer, body)
  | none ↦ elim (find_crlf (c ∷ p)) [
    | none ↦ (bearer, c ∷ p)
    | some (line, rest) ↦ headers fuel (bearer_of bearer line) rest
  ]
]

abbrev pub no_request : Request
no_request = record { method = none; path = []; body = []; auth = nobody }

-- `parse_request` once the first line is read.
unfoldable pub parse_rest : Text → Text → Text → Text → Request
unfolding parse_method headers
parse_rest admin_token raw method_str path =
    let req : Request = record no_request { method = parse_method method_str; path = path } in
    elim (find_crlf raw) [
      | none ↦ req
      | some (_, p) ↦
          let (bearer, rest) = headers (length p) [] p in
          record req { body = take 511 rest; auth = auth_parse (some bearer) admin_token }
    ]

unfoldable pub parse_request : Text → Text → Request
unfolding scan_word parse_rest
parse_request admin_token raw = elim (scan_word 15 raw) [
  | none ↦ no_request
  | some (method_str, rest) ↦ elim (scan_word 63 rest) [
    | none ↦ no_request
    | some (path, _) ↦ parse_rest admin_token raw method_str path
  ]
]
