-- ===== src/Handlers/Stock/Bounds.antt =====
-- The size of the text that `handle_get_stock` writes.
use sshnack.Base.{◌+◌, ◌*◌, ◌≤◌, List, [], ◌∷◌, ◌++◌, arith, All, length, length-append}
use sshnack.Base.Int.{ℤ, pos, negsuc}
use sshnack.Base.Text.{Text, codes}
use sshnack.Base.Number.{print_int}
use sshnack.App.Money.Laws.{length-digits_onto}
use sshnack.Services.Products.{Product}
use sshnack.Handlers.Stock.{stock_entry, more_entries, stock_body}

-- At most five digits.
abbrev pub IsSmall : ℤ → Type 0
IsSmall (pos n) = n ≤ 99999
IsSmall (negsuc n) = ⊥

pub record IsPrintable (p : Product) : Type 0 where
  pub small_slot : IsSmall p.slot_id
  pub small_item : IsSmall p.item_id
  pub short_name : length p.name ≤ 49
  pub small_price : IsSmall p.price_gr
  pub small_stock : IsSmall p.stock_qty

length-print_small : (v : ℤ) (rest : Text) → IsSmall v → length (print_int v rest) ≤ 5 + length rest
unfolding print_int
length-print_small (pos n) rest h =
    omega (arith, length-digits_onto (n + 1) n 4 rest (omega arith) (omega arith))
length-print_small (negsuc n) rest h = absurd h

length-stock_entry :
    (p : Product) (rest : Text) → IsPrintable p → length (stock_entry p rest) ≤ 127 + length rest
unfolding stock_entry
length-stock_entry p rest h =
    let stock = codes ",\"stock_qty\":" ++ print_int p.stock_qty (codes "}" ++ rest) in
    let price = print_int p.price_gr stock in
    let item = codes ",\"name\":\"" ++ (p.name ++ (codes "\",\"price_gr\":" ++ price)) in
    omega (
      arith,
      length-print_small p.stock_qty (codes "}" ++ rest) h.small_stock,
      length-print_small p.price_gr stock h.small_price,
      length-append p.name (codes "\",\"price_gr\":" ++ price),
      h.short_name,
      length-print_small p.item_id item h.small_item,
      length-print_small p.slot_id (codes ",\"item_id\":" ++ print_int p.item_id item) h.small_slot,
    )

length-more_entries :
    (ps : List Product) → All IsPrintable ps → length (more_entries ps) ≤ 128 * length ps + 1
unfolding more_entries
length-more_entries [] h = omega arith
length-more_entries (p ∷ ps) h =
    omega (arith, length-more_entries ps h.1, length-stock_entry p (more_entries ps) h.0)

pub length-stock_body :
    (ps : List Product) → All IsPrintable ps → length (stock_body ps) ≤ 128 * length ps + 2
unfolding stock_body
length-stock_body [] h = omega arith
length-stock_body (p ∷ ps) h =
    omega (arith, length-more_entries ps h.1, length-stock_entry p (more_entries ps) h.0)
