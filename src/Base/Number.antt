-- ===== src/Base/Number.antt =====
-- Decimal numbers in text: `strtol`, `atoi`, the `%d` of `sscanf` and the `%d` of `snprintf`. The
-- C standard leaves a value outside `int` open for `atoi` and for the `%d` of `sscanf`; here it is
-- the low 32 bits of the `long` that `strtol` gives, as in glibc.
use sshnack.Base.Tests.{leb, ltb, ◌==◌, if◌then◌else◌}
use sshnack.Base.Int.{ℤ, pos, negsuc, neg_ℤ, to_int32, IsInt, to_int32_of_IsInt}
use sshnack.Base.Text.{Text, is_digit}
use Prim.Native.Nat.{ℕ, zero, suc, ◌+◌, ◌-◌, ◌*◌, ◌/◌, ◌%◌, ◌^◌, ◌<◌}
use mathlib.Core.Path.{◌≡◌, refl}
use mathlib.Core.Bool.{Bool, true, false, ◌&&◌, ◌||◌}
use mathlib.Core.Option.{Option, none, some}
use mathlib.Core.List.{[], ◌∷◌, ◌++◌}
use native.Mathlib.Omega.{arith}

abbrev pub is_space : ℕ → Bool
is_space c = c == 32 || (leb 9 c && leb c 13)

unfoldable pub skip_spaces : Text → Text
skip_spaces [] = []
skip_spaces (c ∷ s) = if is_space c then skip_spaces s else c ∷ s

-- The value of the digits at the front, after `acc`, and the text behind them.
unfoldable pub take_digits : ℕ → Text → ℕ × Text
take_digits acc [] = (acc, [])
take_digits acc (c ∷ s) = elim (is_digit c) [
  | true ↦ take_digits (acc * 10 + (c - b'0')) s
  | false ↦ (acc, c ∷ s)
]

-- A sign and digits; `none` if there is no digit.
unfoldable pub unsigned : Text → Option (ℕ × Text)
unsigned [] = none
unsigned (c ∷ s) = if is_digit c then some (take_digits 0 (c ∷ s)) else none

abbrev pub signed : (ℕ → ℤ) → Option (ℕ × Text) → Option (ℤ × Text)
signed f none = none
signed f (some (n, rest)) = some (f n, rest)

-- The `long` that `strtol` clamps to.
abbrev pub clamp_pos : ℕ → ℤ
clamp_pos n = pos (if ltb n (2 ^ 63) then n else 2 ^ 63 - 1)

abbrev pub clamp_neg : ℕ → ℤ
clamp_neg n = neg_ℤ (pos (if ltb n (2 ^ 63) then n else 2 ^ 63))

unfoldable pub number : Text → Option (ℤ × Text)
unfolding unsigned
number [] = none
number (c ∷ s) =
    if c == b'-'
    then signed clamp_neg (unsigned s)
    else if c == b'+'
    then signed clamp_pos (unsigned s)
    else signed clamp_pos (unsigned (c ∷ s))

-- `strtol(s, &end, 10)`: the value and the text at `end`, which is all of `s` if no number is there.
unfoldable pub strtol : Text → ℤ × Text
unfolding skip_spaces number
strtol s = elim (number (skip_spaces s)) [ none ↦ (pos 0, s) | some (v, rest) ↦ (v, rest) ]

unfoldable pub atoi : Text → ℤ
unfolding strtol to_int32
atoi s = to_int32 (strtol s).0

-- The text behind a literal prefix.
unfoldable pub strip_prefix : Text → Text → Option Text
strip_prefix [] s = some s
strip_prefix (_ ∷ _) [] = none
strip_prefix (a ∷ p) (c ∷ s) = if a == c then strip_prefix p s else none

-- `sscanf(s, "<prefix>%d...", &v) == 1`: the value of `v`.
unfoldable pub scan_int : Text → Text → Option ℤ
unfolding strip_prefix skip_spaces number to_int32
scan_int prefix s = elim (strip_prefix prefix s) [
  | none ↦ none
  | some rest ↦ elim (number (skip_spaces rest)) [ none ↦ none | some (v, _) ↦ some (to_int32 v) ]
]

-- The decimal digits of a number, in front of a text, with fuel for one digit more than there are.
unfoldable pub digits_onto : ℕ → ℕ → Text → Text
digits_onto zero n acc = acc
digits_onto (suc f) n acc =
    let more = digits_onto f (n / 10) ((n % 10 + b'0') ∷ acc) in
    if ltb n 10 then (n + b'0') ∷ acc else more

-- `%d`, in front of a text.
unfoldable pub print_int : ℤ → Text → Text
unfolding digits_onto
print_int (pos n) rest = digits_onto (n + 1) n rest
print_int (negsuc n) rest = b'-' ∷ digits_onto (n + 2) (n + 1) rest

abbrev pub EndsNumber : Text → Type 0
EndsNumber [] = Unit
EndsNumber (c ∷ s) = is_digit c ≡ false

take_digits-digits_onto :
    (f n : ℕ) (rest : Text) → n < f → take_digits 0 (digits_onto f n rest) ≡ take_digits n rest
unfolding take_digits digits_onto
take_digits-digits_onto zero n rest h = elim h [ ]
take_digits-digits_onto (suc f) n rest h =
    ground (arith, take_digits-digits_onto f (n / 10) ((n % 10 + b'0') ∷ rest))

take_digits_stop : (n : ℕ) (rest : Text) → EndsNumber rest → take_digits n rest ≡ (n, rest)
unfolding take_digits
take_digits_stop n [] h = refl
take_digits_stop n (c ∷ s) h = rw (h, take_digits)

-- A text that begins with a digit is read as a number at once.
abbrev StartsDigit : Text → Type 0
StartsDigit [] = ⊥
StartsDigit (c ∷ s) = is_digit c ≡ true

digits_onto-StartsDigit : (f n : ℕ) (rest : Text) → n < f → StartsDigit (digits_onto f n rest)
unfolding digits_onto
digits_onto-StartsDigit zero n rest h = elim h [ ]
digits_onto-StartsDigit (suc f) n rest h =
    ground (arith, digits_onto-StartsDigit f (n / 10) ((n % 10 + b'0') ∷ rest))

skip_spaces_of_StartsDigit : (s : Text) → StartsDigit s → skip_spaces s ≡ s
unfolding skip_spaces
skip_spaces_of_StartsDigit [] h = refl
skip_spaces_of_StartsDigit (c ∷ s) h = ground arith

unsigned_of_StartsDigit : (s : Text) → StartsDigit s → unsigned s ≡ some (take_digits 0 s)
unfolding unsigned
unsigned_of_StartsDigit [] h = elim h [ ]
unsigned_of_StartsDigit (c ∷ s) h = rw h

number_of_StartsDigit :
    (s : Text) → StartsDigit s → number s ≡ signed clamp_pos (some (take_digits 0 s))
unfolding number
number_of_StartsDigit [] h = elim h [ ]
number_of_StartsDigit (c ∷ s) h = ground arith

number-print_pos :
    (n : ℕ) (rest : Text)
    → EndsNumber rest
    → number (skip_spaces (print_int (pos n) rest)) ≡ some (clamp_pos n, rest)
unfolding print_int
number-print_pos n rest h =
    let s = digits_onto (n + 1) n rest in
    let starts : StartsDigit s = digits_onto-StartsDigit (n + 1) n rest (omega arith) in
    let read = take_digits-digits_onto (n + 1) n rest (omega arith) in
    rw (skip_spaces_of_StartsDigit s starts, number_of_StartsDigit s starts, read)
      (rw (take_digits_stop n rest h))

number-print_neg :
    (n : ℕ) (rest : Text)
    → EndsNumber rest
    → number (skip_spaces (print_int (negsuc n) rest)) ≡ some (clamp_neg (n + 1), rest)
unfolding print_int skip_spaces number
number-print_neg n rest h =
    let s = digits_onto (n + 2) (n + 1) rest in
    let starts : StartsDigit s = digits_onto-StartsDigit (n + 2) (n + 1) rest (omega arith) in
    let read = take_digits-digits_onto (n + 2) (n + 1) rest (omega arith) in
    rw (unsigned_of_StartsDigit s starts, read) (rw (take_digits_stop (n + 1) rest h))

pub strtol-print_nat :
    (n : ℕ) (rest : Text)
    → n < 2 ^ 63
    → EndsNumber rest
    → strtol (print_int (pos n) rest) ≡ (pos n, rest)
unfolding strtol
strtol-print_nat n rest i h = rw (number-print_pos n rest h, strtol) (ground arith)

-- What `%d` prints, `strtol` and the `%d` of `sscanf` read back.
pub strtol-print_int :
    (v : ℤ) (rest : Text) → IsInt v → EndsNumber rest → strtol (print_int v rest) ≡ (v, rest)
unfolding strtol
strtol-print_int (pos n) rest i h = rw (number-print_pos n rest h, strtol) (ground arith)
strtol-print_int (negsuc n) rest i h = rw (number-print_neg n rest h, strtol) (ground arith)

strip_prefix-append : (p s : Text) → strip_prefix p (p ++ s) ≡ some s
unfolding strip_prefix
strip_prefix-append [] s = refl
strip_prefix-append (a ∷ p) s = ground (arith, strip_prefix-append p s)

pub scan_int-print_int :
    (p : Text) (v : ℤ) (rest : Text)
    → IsInt v
    → EndsNumber rest
    → scan_int p (p ++ print_int v rest) ≡ some v
unfolding scan_int
scan_int-print_int p (pos n) rest i h =
    rw (strip_prefix-append p (print_int (pos n) rest), scan_int)
      (rw (number-print_pos n rest h) (ground (arith, to_int32_of_IsInt (pos n))))
scan_int-print_int p (negsuc n) rest i h =
    rw (strip_prefix-append p (print_int (negsuc n) rest), scan_int)
      (rw (number-print_neg n rest h) (ground (arith, to_int32_of_IsInt (negsuc n))))
