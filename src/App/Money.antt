-- ===== src/App/Money.antt =====
-- Amounts in tui/src/app.c: `app_fmt_money`, `parse_zl_to_gr` and `parse_pos_int`. Their `long` does
-- not overflow, since they refuse a large number at once.
pub mod Laws
use sshnack.Base.{
  ℕ, ◌+◌, ◌-◌, ◌*◌, ◌/◌, ◌%◌, ◌^◌, ◌==◌, Bool, true, false, Option, none, some, [], ◌∷◌,
  if◌then◌else◌, not, ltb, take,
}
use sshnack.Base.Int.{ℤ, pos, negsuc, neg_ℤ}
use sshnack.Base.Text.{Text, is_digit}
use sshnack.Base.Number.{print_int}

abbrev pub int_max : ℕ
int_max = 2 ^ 31 - 1

-- `%02d` of a number between -99 and 99.
abbrev pub print_02 : ℤ → Text
print_02 (pos n) = (n / 10 + b'0') ∷ (n % 10 + b'0') ∷ []
print_02 (negsuc n) = print_int (negsuc n) []

-- The quotient and the remainder by 100 are those of C, which rounds to 0.
abbrev quot_100 : ℤ → ℤ
quot_100 (pos n) = pos (n / 100)
quot_100 (negsuc n) = neg_ℤ (pos ((n + 1) / 100))

abbrev rem_100 : ℤ → ℤ
rem_100 (pos n) = pos (n % 100)
rem_100 (negsuc n) = neg_ℤ (pos ((n + 1) % 100))

unfoldable pub app_fmt_money : ℤ → ℕ → Text
app_fmt_money gr n = take (n - 1) (print_int (quot_100 gr) (b'.' ∷ print_02 (rem_100 gr)))

-- The digits before the point, the text that begins with the point, and whether there was a digit.
unfoldable pub parse_zl : ℕ → Bool → Text → Option (ℕ × Bool × Text)
parse_zl zl seen_digit [] = some (zl, seen_digit, [])
parse_zl zl seen_digit (c ∷ s) =
    let zl' = zl * 10 + (c - b'0') in
    let rest = parse_zl zl' true s in
    if c == b'.'
    then some (zl, seen_digit, c ∷ s)
    else if not (is_digit c)
    then none
    else if ltb 99999999 zl'
    then none
    else rest

-- The digits behind the point, two at most, and their number.
unfoldable pub parse_gr : ℕ → ℕ → Text → Option (ℕ × ℕ)
parse_gr gr frac_digits [] = some (gr, frac_digits)
parse_gr gr frac_digits (c ∷ s) =
    let rest = parse_gr (gr * 10 + (c - b'0')) (frac_digits + 1) s in
    if not (is_digit c) then none else if ltb frac_digits 2 then rest else none

unfoldable pub parse_fraction : Text → Option ℕ
unfolding parse_gr
parse_fraction [] = some 0
parse_fraction (_ ∷ s) = elim (parse_gr 0 0 s) [
  | none ↦ none
  | some (gr, frac_digits) ↦ some (if frac_digits == 1 then gr * 10 else gr)
]

unfoldable pub parse_zl_to_gr : Text → ℤ
unfolding parse_zl parse_fraction
parse_zl_to_gr s = elim (parse_zl 0 false s) [
  | none ↦ negsuc 0
  | some (zl, seen_digit, rest) ↦ elim (parse_fraction rest) [
    | none ↦ negsuc 0
    | some gr ↦
        let result = zl * 100 + gr in
        if not seen_digit then negsuc 0 else if ltb int_max result then negsuc 0 else pos result
  ]
]

-- The loop of `parse_pos_int`.
unfoldable pub parse_pos : ℕ → Text → Option ℕ
parse_pos v [] = some v
parse_pos v (c ∷ s) =
    let v' = v * 10 + (c - b'0') in
    let rest = parse_pos v' s in
    if not (is_digit c) then none else if ltb int_max v' then none else rest

unfoldable pub parse_pos_int : Text → ℤ
unfolding parse_pos
parse_pos_int [] = negsuc 0
parse_pos_int (c ∷ s) = elim (parse_pos 0 (c ∷ s)) [
  | none ↦ negsuc 0
  | some v ↦ if ltb 0 v then pos v else negsuc 0
]
