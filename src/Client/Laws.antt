-- ===== src/Client/Laws.antt =====
-- What the client prints into a request is what the handlers read.
use sshnack.Base.{◌≡◌, ◌+◌, ◌≤◌, ◌++◌, refl, some, [], arith, length, length-append}
use sshnack.Base.Int.{ℤ, pos, negsuc, IsInt}
use sshnack.Base.Text.{Text, codes}
use sshnack.Base.Number.{print_int, scan_int, scan_int-print_int, EndsNumber}
use sshnack.App.Money.Laws.{length-digits_onto, take-length}
use sshnack.Client.{
  printed, deposit_body, purchase_body, restock_path, restock_body, price_path, price_body,
}

pub length-print_int :
    (v : ℤ) (rest : Text) → IsInt v → length (print_int v rest) ≤ 11 + length rest
unfolding print_int
length-print_int (pos n) rest h =
    omega (arith, length-digits_onto (n + 1) n 9 rest (omega arith) (omega arith))
length-print_int (negsuc n) rest h =
    omega (arith, length-digits_onto (n + 2) (n + 1) 9 rest (omega arith) (omega arith))

scan_int-printed :
    (p : Text) (v : ℤ) (rest : Text)
    → length p + length rest ≤ 50
    → IsInt v
    → EndsNumber rest
    → scan_int p (printed p v rest) ≡ some v
scan_int-printed p v rest b h ends =
    let fits : length (p ++ print_int v rest) ≤ 63 =
      omega (arith, length-append p (print_int v rest), length-print_int v rest h) in
    rw (take-length 63 (p ++ print_int v rest) fits) (scan_int-print_int p v rest h ends)

-- The server reads from the client's paths and bodies the amounts and numbers that the client put
-- there, for every two `int`s.
pub requests_read :
    (v w : ℤ)
    → IsInt v
    → IsInt w
    → (scan_int (codes "{\"amount_gr\":") (deposit_body v) ≡ some v)
      × (scan_int (codes "{\"slot_id\":") (purchase_body v) ≡ some v)
      × (scan_int (codes "/stock/") (restock_path v) ≡ some v)
      × (scan_int (codes "{\"qty\":") (restock_body w) ≡ some w)
      × (scan_int (codes "/items/") (price_path v) ≡ some v)
      × (scan_int (codes "{\"price_gr\":") (price_body w) ≡ some w)
requests_read v w hv hw = (
  scan_int-printed (codes "{\"amount_gr\":") v (codes "}") (omega arith) hv refl,
  scan_int-printed (codes "{\"slot_id\":") v (codes "}") (omega arith) hv refl,
  scan_int-printed (codes "/stock/") v [] (omega arith) hv tt,
  scan_int-printed (codes "{\"qty\":") w (codes "}") (omega arith) hw refl,
  scan_int-printed (codes "/items/") v [] (omega arith) hv tt,
  scan_int-printed (codes "{\"price_gr\":") w (codes "}") (omega arith) hw refl,
)
