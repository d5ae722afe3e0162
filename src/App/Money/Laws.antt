-- ===== src/App/Money/Laws.antt =====
-- What is printed as an amount is read as that amount.
use sshnack.Base.{
  ℕ, ◌≡◌, ◌+◌, ◌-◌, ◌*◌, ◌/◌, ◌%◌, ◌^◌, ◌<◌, ◌≤◌, ◌⊎◌, ◌∙◌, refl, Bool, true, false, some, List, [],
  ◌∷◌, arith, length, take, Option-cases, inl, inr,
}
use native.Mathlib.Omega.{pow_step}
use sshnack.Base.Int.{pos, negsuc, ◌≤ℤ◌, ◌<ℤ◌}
use sshnack.Base.Text.{Text}
use sshnack.Base.Number.{digits_onto, print_int}
use sshnack.App.Money.{
  app_fmt_money, parse_zl, parse_gr, parse_fraction, parse_zl_to_gr, parse_pos, parse_pos_int,
  int_max,
}

parse_zl-digits_onto :
    (f n : ℕ) (seen : Bool) (rest : Text)
    → n < f
    → n ≤ 99999999
    → parse_zl 0 seen (digits_onto f n rest) ≡ parse_zl n true rest
unfolding parse_zl digits_onto
parse_zl-digits_onto ℕ.zero n seen rest h b = elim h [ ]
parse_zl-digits_onto (ℕ.suc f) n seen rest h b =
    ground (arith, parse_zl-digits_onto f (n / 10) seen ((n % 10 + b'0') ∷ rest))

parse_pos-digits_onto :
    (f n : ℕ) (rest : Text)
    → n < f
    → n ≤ int_max
    → parse_pos 0 (digits_onto f n rest) ≡ parse_pos n rest
unfolding parse_pos digits_onto
parse_pos-digits_onto ℕ.zero n rest h b = elim h [ ]
parse_pos-digits_onto (ℕ.suc f) n rest h b =
    ground (arith, parse_pos-digits_onto f (n / 10) ((n % 10 + b'0') ∷ rest))

-- Two digits are read as they are printed.
parse_fraction_two :
    (n : ℕ) → n < 100 → parse_fraction (b'.' ∷ (n / 10 + b'0') ∷ (n % 10 + b'0') ∷ []) ≡ some n
unfolding parse_fraction parse_gr
parse_fraction_two n h = ground arith

pub length-digits_onto :
    (f n k : ℕ) (rest : Text)
    → n < f
    → n < 10 ^ ℕ.suc k
    → length (digits_onto f n rest) ≤ k + 1 + length rest
unfolding digits_onto
length-digits_onto ℕ.zero n k rest h b = elim h [ ]
length-digits_onto (ℕ.suc f) n ℕ.zero rest h b = ground arith
length-digits_onto (ℕ.suc f) n (ℕ.suc k) rest h b =
    let power : 10 ^ ℕ.suc (ℕ.suc k) ≡ 10 * 10 ^ ℕ.suc k = pow_step 10 (ℕ.suc k) in
    let below : n / 10 < 10 ^ ℕ.suc k = omega arith in
    ground (arith, length-digits_onto f (n / 10) k ((n % 10 + b'0') ∷ rest))

pub take-length : {A : Type 0} (n : ℕ) (s : List A) → length s ≤ n → take n s ≡ s
take-length ℕ.zero [] h = refl
take-length (ℕ.suc n) [] h = refl
take-length ℕ.zero (c ∷ s) h = ground arith
take-length (ℕ.suc n) (c ∷ s) h = ground (arith, take-length n s)

-- An amount that the client prints fits its buffer of 16 bytes, and is read back as the amount it was,
-- for every `int` that is not negative.
pub parse_zl_to_gr-app_fmt_money :
    (n : ℕ) → n ≤ int_max → parse_zl_to_gr (app_fmt_money (pos n) 16) ≡ pos n
unfolding app_fmt_money print_int parse_zl_to_gr parse_zl
parse_zl_to_gr-app_fmt_money n h =
    let cents = b'.' ∷ (n % 100 / 10 + b'0') ∷ (n % 100 % 10 + b'0') ∷ [] in
    let whole = digits_onto (n / 100 + 1) (n / 100) cents in
    let fits : length whole ≤ 15 =
      ground (arith, length-digits_onto (n / 100 + 1) (n / 100) 7 cents) in
    rw
      (
        take-length 15 whole fits,
        parse_zl_to_gr,
        parse_zl-digits_onto (n / 100 + 1) (n / 100) false cents (omega arith) (omega arith),
      )
      (rw (parse_fraction_two (n % 100) (omega arith)) (ground arith))

parse_pos_int_of : (s : Text) (n : ℕ) → 0 < n → parse_pos 0 s ≡ some n → parse_pos_int s ≡ pos n
unfolding parse_pos_int
parse_pos_int_of [] n p e = unfold parse_pos in ground arith
parse_pos_int_of (c ∷ s) n p e = ground (arith, e)

-- A quantity that is typed as it is printed is read as that quantity, for every positive `int`.
pub parse_pos_int-print_int :
    (n : ℕ) → 0 < n → n ≤ int_max → parse_pos_int (print_int (pos n) []) ≡ pos n
unfolding print_int
parse_pos_int-print_int n p h =
    parse_pos_int_of (digits_onto (n + 1) n []) n p
      (parse_pos-digits_onto (n + 1) n [] (omega arith) h ∙ (unfold parse_pos in refl))

parse_pos_bound : (v w : ℕ) (s : Text) → v ≤ int_max → parse_pos v s ≡ some w → w ≤ int_max
unfolding parse_pos
parse_pos_bound v w [] h e = ground arith
parse_pos_bound v w (c ∷ s) h e = ground (arith, parse_pos_bound (v * 10 + (c - b'0')) w s)

parse_zl_to_gr_range :
    (s : Text)
    → parse_zl_to_gr s ≡ negsuc 0
      ⊎ ((pos 0 ≤ℤ parse_zl_to_gr s) × (parse_zl_to_gr s ≤ℤ pos int_max))
unfolding parse_zl_to_gr
parse_zl_to_gr_range s = ground arith

parse_pos_int_range :
    (s : Text)
    → parse_pos_int s ≡ negsuc 0 ⊎ ((pos 0 <ℤ parse_pos_int s) × (parse_pos_int s ≤ℤ pos int_max))
unfolding parse_pos_int
parse_pos_int_range [] = inl refl
parse_pos_int_range (c ∷ s) = elim (Option-cases (parse_pos 0 (c ∷ s))) [
  | inl e ↦ ground (arith, e)
  | inr (w, e) ↦ ground (arith, e, parse_pos_bound 0 w (c ∷ s) (omega arith) e)
]

-- What the client makes of a typed amount or quantity is -1 or an `int` that is not negative, and the
-- quantity is not 0.
pub parsed_range :
    (s : Text)
    → (parse_zl_to_gr s ≡ negsuc 0
        ⊎ ((pos 0 ≤ℤ parse_zl_to_gr s) × (parse_zl_to_gr s ≤ℤ pos int_max)))
      × (parse_pos_int s ≡ negsuc 0
          ⊎ ((pos 0 <ℤ parse_pos_int s) × (parse_pos_int s ≤ℤ pos int_max)))
parsed_range s = (parse_zl_to_gr_range s, parse_pos_int_range s)
