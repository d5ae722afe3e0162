-- ===== src/Handlers/Stock.antt =====
-- `handle_get_stock` of server/src/api/router/handlers/products.c and `handle_get_slow` of debug.c.
-- Whether an allocation succeeds is a parameter.
pub mod Bounds
pub mod Laws
use sshnack.Base.{
  ℕ, ◌+◌, ◌*◌, Bool, none, some, List, [], ◌∷◌, ◌++◌, if◌then◌else◌, not, length, leb, Option,
}
use sshnack.Base.Int.{ℤ, pos, eqb_ℤ}
use sshnack.Base.Text.{Text, codes}
use sshnack.Base.Number.{print_int}
use sshnack.Sqlite.{Prog, ret, ◌>>=◌}
use sshnack.Services.Products.{Product}
use sshnack.Services.Products.Listing.{products_list}
use sshnack.Handlers.{internal_error, json}
use sshnack.Handlers.Send.{Sent, sent, overflow, products_status, send_json}

-- The text of a product, in front of a text.
unfoldable pub stock_entry : Product → Text → Text
stock_entry p rest =
    codes "{\"slot_id\":"
    ++ print_int p.slot_id (
        codes ",\"item_id\":"
        ++ print_int p.item_id (
            codes ",\"name\":\""
            ++ (p.name
                ++ (codes "\",\"price_gr\":"
                    ++ print_int p.price_gr
                        (codes ",\"stock_qty\":" ++ print_int p.stock_qty (codes "}" ++ rest))))))

-- The rounds of the loop after the first, and the closing bracket.
unfoldable pub more_entries : List Product → Text
unfolding stock_entry
more_entries [] = codes "]"
more_entries (p ∷ ps) = codes "," ++ stock_entry p (more_entries ps)

unfoldable pub stock_body : List Product → Text
unfolding stock_entry more_entries
stock_body [] = codes "[]"
stock_body (p ∷ ps) = codes "[" ++ stock_entry p (more_entries ps)

-- `malloc(count * 128 + 8)`, which `sprintf` fills without a look at its size.
unfoldable pub answer_stock : (ℕ → Bool) → List Product → Sent
unfolding stock_body
answer_stock gives products =
    let size = length products * 128 + 8 in
    let body = stock_body products in
    if not (gives size)
    then send_json products_status 8192 internal_error
    else if leb (length body + 1) size
    then send_json products_status 8192 (json 200 body)
    else overflow

-- What is sent after `products_list`; a code of 0 comes with a list.
abbrev pub answer_list : (ℕ → Bool) → ℤ × Option (List Product) → Sent
answer_list gives (rc, none) = send_json products_status 8192 internal_error
answer_list gives (rc, some products) =
    if not (eqb_ℤ rc (pos 0))
    then send_json products_status 8192 internal_error
    else answer_stock gives products

-- `gives` is `malloc` and `realloc` for the list by its capacity, `gives_body` for the text by its
-- size.
unfoldable pub handle_get_stock : (ℕ → Bool) → (ℕ → Bool) → Prog Sent
unfolding answer_stock
handle_get_stock gives gives_body = products_list gives >>= λ r. ret (answer_list gives_body r)

unfoldable pub handle_get_slow : Sent
handle_get_slow =
    sent (codes "HTTP/1.1 200 OK\r\nContent-Type: text/plain\r\nContent-Length: 2\r\n\r\nok")
