-- ===== src/Api/Laws.antt =====
-- `parse_request` against the texts that HTTP clients send.
use sshnack.Base.{
  append-nil, ◌∙◌, ap, ℕ, ◌≡◌, ◌≢◌, ◌<◌, ◌≤◌, refl, false, none, some, List, [], ◌∷◌, ◌++◌, arith,
  length, All, length-append,
}
use sshnack.Base.Text.{Text}
use sshnack.Base.Number.{is_space, skip_spaces, strip_prefix}
use sshnack.Api.{
  bearer_prefix, strip_nocase, take_word, scan_word, find_crlf, bearer_of, headers, parse_request,
  parse_rest, parse_method, take, auth_parse,
}

-- What `%<n>s` reads whole, and a line of a header.
abbrev pub IsWord : ℕ → Text → Type 0
IsWord n w = (w ≢ []) × (length w ≤ n) × All (λ c. is_space c ≡ false) w

abbrev pub IsLine : Text → Type 0
IsLine l = (l ≢ []) × All (λ c. c ≢ 13) l

take_word-append :
    (n : ℕ) (w rest : Text)
    → length w ≤ n
    → All (λ c. is_space c ≡ false) w
    → take_word n (w ++ 32 ∷ rest) ≡ (w, 32 ∷ rest)
unfolding take_word
take_word-append ℕ.zero [] rest h a = refl
take_word-append (ℕ.suc n) [] rest h a = refl
take_word-append ℕ.zero (c ∷ w) rest h a = ground arith
take_word-append (ℕ.suc n) (c ∷ w) rest h a =
    rw (a.0, take_word-append n w rest (omega arith) a.1) refl

scan_word-append :
    (n : ℕ) (w rest : Text) → IsWord n w → scan_word n (w ++ 32 ∷ rest) ≡ some (w, 32 ∷ rest)
unfolding scan_word skip_spaces
scan_word-append n [] rest h = absurd (h.0 refl)
scan_word-append n (c ∷ w) rest h = rw (h.2.0, take_word-append n (c ∷ w) rest h.1 h.2) refl

-- The space that `%s` skips.
scan_word_space :
    (n : ℕ) (w rest : Text) → IsWord n w → scan_word n (32 ∷ w ++ 32 ∷ rest) ≡ some (w, 32 ∷ rest)
unfolding scan_word skip_spaces
scan_word_space n w rest h = scan_word-append n w rest h

strip_crlf_not : (c : ℕ) (s : Text) → c ≢ 13 → strip_prefix (13 ∷ 10 ∷ []) (c ∷ s) ≡ none
unfolding strip_prefix
strip_crlf_not c s n = ground arith

find_crlf-append :
    (w rest line tail : Text)
    → All (λ c. c ≢ 13) w
    → find_crlf rest ≡ some (line, tail)
    → find_crlf (w ++ rest) ≡ some (w ++ line, tail)
unfolding find_crlf
find_crlf-append [] rest line tail a h = h
find_crlf-append (c ∷ w) rest line tail a h =
    rw (strip_crlf_not c (w ++ rest) a.0, find_crlf-append w rest line tail a.1 h, find_crlf) refl

find_crlf_here : (tail : Text) → find_crlf (13 ∷ 10 ∷ tail) ≡ some ([], tail)
unfolding find_crlf strip_prefix
find_crlf_here tail = refl

find_crlf_line :
    (l tail : Text) → All (λ c. c ≢ 13) l → find_crlf (l ++ 13 ∷ 10 ∷ tail) ≡ some (l, tail)
find_crlf_line l tail a =
    find_crlf-append l (13 ∷ 10 ∷ tail) [] tail a (find_crlf_here tail)
    ∙ ap (λ x. some (x, tail)) (append-nil l)

-- The lines of a header, each with its end, the empty line and the body.
abbrev pub header_text : List Text → Text → Text
header_text [] body = 13 ∷ 10 ∷ body
header_text (l ∷ ls) body = l ++ 13 ∷ 10 ∷ header_text ls body

abbrev pub last_bearer : Text → List Text → Text
last_bearer bearer [] = bearer
last_bearer bearer (l ∷ ls) = last_bearer (bearer_of bearer l) ls

length-header_text : (ls : List Text) (body : Text) → length ls < length (header_text ls body)
length-header_text [] body = omega arith
length-header_text (l ∷ ls) body =
    omega (arith, length-header_text ls body, length-append l (13 ∷ 10 ∷ header_text ls body))

headers-header_text :
    (fuel : ℕ) (bearer : Text) (ls : List Text) (body : Text)
    → length ls < fuel
    → All IsLine ls
    → headers fuel bearer (header_text ls body) ≡ (last_bearer bearer ls, body)
unfolding headers
headers-header_text ℕ.zero bearer ls body h a = elim h [ ]
headers-header_text (ℕ.suc fuel) bearer [] body h a = unfold strip_prefix in refl
headers-header_text (ℕ.suc fuel) bearer ([] ∷ ls) body h a = absurd (a.0.0 refl)
headers-header_text (ℕ.suc fuel) bearer ((c ∷ l) ∷ ls) body h a =
    let rest = header_text ls body in
    rw (strip_crlf_not c (l ++ 13 ∷ 10 ∷ rest) a.0.1.0, find_crlf_line (c ∷ l) rest a.0.1, headers)
      (headers-header_text fuel (bearer_of bearer (c ∷ l)) ls body (omega arith) a.1)

word_no_cr : (w : Text) → All (λ c. is_space c ≡ false) w → All (λ c. c ≢ 13) w
word_no_cr [] a = tt
word_no_cr (c ∷ w) a = (ground (arith, a.0), word_no_cr w a.1)

-- The text of a request: the method, the path and the version, the lines of the header, the body.
abbrev pub request_text : Text → Text → Text → List Text → Text → Text
request_text method_str path version lines body =
    method_str ++ (32 ∷ (path ++ (32 ∷ (version ++ (13 ∷ 10 ∷ header_text lines body)))))

find_crlf-request_text :
    (m path version : Text) (lines : List Text) (body : Text)
    → All (λ c. is_space c ≡ false) m
    → All (λ c. is_space c ≡ false) path
    → All (λ c. c ≢ 13) version
    → find_crlf (request_text m path version lines body)
      ≡ some (m ++ (32 ∷ (path ++ (32 ∷ version))), header_text lines body)
find_crlf-request_text m path version lines body am aq av =
    let tail = header_text lines body in
    let third = find_crlf_line (32 ∷ version) tail (λ e. omega (arith, e), av) in
    let second =
      find_crlf-append (32 ∷ path) (32 ∷ (version ++ (13 ∷ 10 ∷ tail))) (32 ∷ version) tail
        (λ e. omega (arith, e), word_no_cr path aq) third in
    find_crlf-append m (32 ∷ (path ++ (32 ∷ (version ++ (13 ∷ 10 ∷ tail)))))
      (32 ∷ (path ++ (32 ∷ version))) tail (word_no_cr m am) second

-- From the text of a request the server reads its method, its path, its body, cut to 511 bytes, and
-- whom the last bearer token of its header stands for. The method is a word of at most 15 bytes and
-- the path one of at most 63, and no line of the header is empty or has a carriage return.
pub parse_request_lem :
    (admin_token m path version : Text) (lines : List Text) (body : Text)
    → IsWord 15 m
    → IsWord 63 path
    → All (λ c. c ≢ 13) version
    → All IsLine lines
    → parse_request admin_token (request_text m path version lines body) ≡ record {
      method = parse_method m;
      path = path;
      body = take 511 body;
      auth = auth_parse (some (last_bearer [] lines)) admin_token;
    }
unfolding parse_request parse_rest
parse_request_lem admin_token m path version lines body hm hp hv hl =
    let tail = header_text lines body in
    rw
      (
        scan_word-append 15 m (path ++ (32 ∷ (version ++ (13 ∷ 10 ∷ tail)))) hm,
        scan_word_space 63 path (version ++ (13 ∷ 10 ∷ tail)) hp,
        parse_request,
      )
      (rw (find_crlf-request_text m path version lines body hm.2 hp.2 hv, parse_rest)
        (rw (headers-header_text (length tail) [] lines body (length-header_text lines body) hl)
          refl))

bearer_of-prefix :
    (bearer token : Text) → bearer_of bearer (bearer_prefix ++ token) ≡ take 127 token
unfolding bearer_of strip_nocase
bearer_of-prefix bearer token = refl

last_bearer-append :
    (bearer : Text) (ls : List Text) (token : Text)
    → last_bearer bearer (ls ++ (bearer_prefix ++ token) ∷ []) ≡ take 127 token
last_bearer-append bearer [] token = bearer_of-prefix bearer token
last_bearer-append bearer (l ∷ ls) token = last_bearer-append (bearer_of bearer l) ls token

-- If the last line of the header is `Authorization: Bearer <token>`, the request is made by whom the
-- token stands for, cut to 127 bytes, whatever the lines before it say. The first line and the
-- lines are as HTTP wants them, the method of at most 15 bytes and the path of at most 63.
pub parse_request_bearer :
    (admin_token m path version : Text) (lines : List Text) (token body : Text)
    → IsWord 15 m
    → IsWord 63 path
    → All (λ c. c ≢ 13) version
    → All IsLine (lines ++ (bearer_prefix ++ token) ∷ [])
    → (parse_request admin_token
        (request_text m path version (lines ++ (bearer_prefix ++ token) ∷ []) body)).auth
      ≡ auth_parse (some (take 127 token)) admin_token
parse_request_bearer admin_token m path version lines token body hm hp hv hl =
    rw
      (parse_request_lem admin_token m path version (lines ++ (bearer_prefix ++ token) ∷ []) body hm
        hp hv hl)
      (rw (last_bearer-append [] lines token) refl)
