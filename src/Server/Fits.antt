-- ===== src/Server/Fits.antt =====
-- Replies that fit the buffers of `send_json`, and status lines that show their number.
use sshnack.Base.{
  ◌⊎◌, ℕ, ◌≤◌, ◌≡◌, refl, Option, none, some, ◌++◌, inl, inr, arith, length, length-take,
  Bool-cases,
}
use sshnack.Base.Int.{ℤ, pos, eqb_ℤ, to_int32}
use sshnack.Base.Text.{Text, codes}
use sshnack.Base.Number.{
  scan_int, strip_prefix, number, unsigned, take_digits, skip_spaces, print_int,
}
use sshnack.Services.Common.{failure}
use sshnack.Services.Balance.{balance_not_found}
use sshnack.Handlers.{Reply, json, answer, balance_reply, lookup_reply, number_body, internal_error}
use sshnack.Handlers.Send.{
  Sent, sent, message, send_json, admin_status, balance_status, orders_status, users_status,
}
use sshnack.Handlers.Send.Laws.{send_json_whole}

-- The number in a status line.
abbrev pub status_of : Text → Option ℤ
status_of text = scan_int (codes "HTTP/1.1 ") text

-- A status that a file of handlers knows.
abbrev pub Knows : (ℕ → Text) → ℕ → Type 0
Knows status_str n =
    (length (status_str n) ≤ 25)
    × ((rest : Text) → status_of (codes "HTTP/1.1 " ++ (status_str n ++ rest)) ≡ some (pos n))
    × ((n ≡ 200) ⊎ (400 ≤ n))

pub admin-Knows :
    Knows admin_status 200
    × Knows admin_status 400
    × Knows admin_status 403
    × Knows admin_status 500
unfolding admin_status scan_int strip_prefix number unsigned take_digits skip_spaces to_int32
admin-Knows = (
  (omega arith, λ rest. refl, inl refl),
  (omega arith, λ rest. refl, inr (omega arith)),
  (omega arith, λ rest. refl, inr (omega arith)),
  (omega arith, λ rest. refl, inr (omega arith)),
)

pub balance-Knows :
    Knows balance_status 200
    × Knows balance_status 400
    × Knows balance_status 401
    × Knows balance_status 404
    × Knows balance_status 500
unfolding balance_status scan_int strip_prefix number unsigned take_digits skip_spaces to_int32
balance-Knows = (
  (omega arith, λ rest. refl, inl refl),
  (omega arith, λ rest. refl, inr (omega arith)),
  (omega arith, λ rest. refl, inr (omega arith)),
  (omega arith, λ rest. refl, inr (omega arith)),
  (omega arith, λ rest. refl, inr (omega arith)),
)

pub orders-Knows :
    Knows orders_status 200
    × Knows orders_status 400
    × Knows orders_status 401
    × Knows orders_status 500
unfolding orders_status scan_int strip_prefix number unsigned take_digits skip_spaces to_int32
orders-Knows = (
  (omega arith, λ rest. refl, inl refl),
  (omega arith, λ rest. refl, inr (omega arith)),
  (omega arith, λ rest. refl, inr (omega arith)),
  (omega arith, λ rest. refl, inr (omega arith)),
)

pub users-Knows : Knows users_status 200 × Knows users_status 400 × Knows users_status 500
unfolding users_status scan_int strip_prefix number unsigned take_digits skip_spaces to_int32
users-Knows = (
  (omega arith, λ rest. refl, inl refl),
  (omega arith, λ rest. refl, inr (omega arith)),
  (omega arith, λ rest. refl, inr (omega arith)),
)

-- A short reply with such a status.
abbrev pub Fits : (ℕ → Text) → Reply → Type 0
Fits status_str r = Knows status_str r.status × (length r.body ≤ 63)

-- What is sent is this reply, whole; its status is 200 or an error.
abbrev pub Whole : (ℕ → Text) → Reply → Sent → Type 0
Whole status_str r out =
    (out ≡ sent (message (status_str r.status) r.body))
    × (status_of (message (status_str r.status) r.body) ≡ some (pos r.status))
    × ((r.status ≡ 200) ⊎ (400 ≤ r.status))

pub Fits-Whole :
    (status_str : ℕ → Text) (r : Reply)
    → Fits status_str r
    → Whole status_str r (send_json status_str 512 r)
unfolding message
Fits-Whole status_str r ((short, reads, told), body) =
    (send_json_whole status_str 512 r (omega (arith, short, body)) (omega arith), reads _, told)

number_body-Fits :
    (status_str : ℕ → Text) (prefix : Text) (n : ℤ)
    → Knows status_str 200
    → Fits status_str (json 200 (number_body prefix n))
number_body-Fits status_str prefix n k =
    (k, omega (arith, length-take 63 (prefix ++ print_int n (codes "}"))))

pub answer-Fits :
    (status_str : ℕ → Text) (refused : Reply) (rc : ℤ)
    → Knows status_str 200
    → Fits status_str refused
    → Fits status_str (answer refused rc)
answer-Fits status_str refused rc k h = elim (Bool-cases (eqb_ℤ rc (pos 0))) [
  | inl y ↦ rw y (k, omega arith)
  | inr n ↦ rw n h
]

balance_out-Fits :
    (prefix : Text) (out : Option ℤ)
    → Fits balance_status
        (elim out [ none ↦ internal_error | some n ↦ json 200 (number_body prefix n) ])
balance_out-Fits prefix none = (balance-Knows.4, omega arith)
balance_out-Fits prefix (some n) = number_body-Fits balance_status prefix n balance-Knows.0

pub balance_reply-Fits :
    (prefix : Text) (r : ℤ × Option ℤ) → Fits balance_status (balance_reply prefix r)
balance_reply-Fits prefix (rc, out) = elim (Bool-cases (eqb_ℤ rc balance_not_found)) [
  | inl y ↦ rw y (balance-Knows.3, omega arith)
  | inr n ↦ elim (Bool-cases (eqb_ℤ rc (pos 0))) [
    | inr n' ↦ rw (n, n') (balance-Knows.4, omega arith)
    | inl y' ↦ rw (n, y') (balance_out-Fits prefix out)
  ]
]

pub lookup_reply-Fits : (uid : ℤ) → Fits users_status (lookup_reply uid)
lookup_reply-Fits uid = elim (Bool-cases (eqb_ℤ uid failure)) [
  | inl y ↦ rw y (users-Knows.2, omega arith)
  | inr n ↦ rw n (number_body-Fits users_status (codes "{\"user_id\":") uid users-Knows.0)
]
