-- ===== src/Handlers/Stock/Laws.antt =====
-- What `handle_get_stock` sends.
use sshnack.Base.{
  ℕ, ◌≤◌, ◌≡◌, ◌⊎◌, inl, inr, refl, Bool, List, [], ◌∷◌, arith, All, length, length-take,
  Option-cases,
}
use sshnack.Base.Int.{ℤ, pos, negsuc, IsInt, to_int32, to_int32_of_IsInt}
use mathlib.Core.List.{Perm}
use sshnack.Tables.{Tables, Slot, find_where, item_is}
use sshnack.Tables.Rows.{All-find_where}
use sshnack.Tables.Statements.{ordered_slots}
use sshnack.Sqlite.{Sqlite, IsSqlite, run}
use sshnack.Services.Common.{idle}
use sshnack.Services.Products.{Product}
use sshnack.Services.Products.Listing.{products_list}
use sshnack.Services.Products.Listing.Laws.{
  shown, Ascends, products_list-Lists, shown-ordered_slots, shown-Ascends, All-ordered_slots,
  ordered_slots-SlotsAscend,
}
use sshnack.Services.Products.Listing.Length.{length-shown, length-ordered_slots}
use sshnack.Handlers.{json, internal_error}
use sshnack.Handlers.Laws.{run-map}
use sshnack.Handlers.Send.{Sent, sent, message, products_status, send_json}
use sshnack.Handlers.Send.Laws.{send_json_whole}
use sshnack.Handlers.Stock.{answer_stock, answer_list, stock_body, handle_get_stock}
use sshnack.Handlers.Stock.Bounds.{IsSmall, IsPrintable, length-stock_body}

-- The numbers of the tables have at most five digits.
pub record IsTidy (t : Tables) : Type 0 where
  pub slots : All (λ s. IsSmall s.slot_id × IsSmall s.item_id × IsSmall s.quantity) t.stock
  pub prices : All (λ i. IsSmall i.price) t.items

IsSmall-IsInt : (v : ℤ) → IsSmall v → IsInt v
IsSmall-IsInt (pos n) h = omega arith
IsSmall-IsInt (negsuc n) h = absurd h

to_int32-IsSmall : (v : ℤ) → IsSmall v → IsSmall (to_int32 v)
to_int32-IsSmall (pos n) h = rw (to_int32_of_IsInt (pos n) (omega arith)) h
to_int32-IsSmall (negsuc n) h = absurd h

shown-IsPrintable :
    (t : Tables) (rows : List Slot)
    → All (λ i. IsSmall i.price) t.items
    → All (λ s. IsSmall s.slot_id × IsSmall s.item_id × IsSmall s.quantity) rows
    → All IsPrintable (shown t rows)
unfolding shown
shown-IsPrintable t [] prices h = tt
shown-IsPrintable t (s ∷ rows) prices ((slot, item, quantity), more) =
    elim (Option-cases (find_where (item_is s.item_id) t.items)) [
      | inl e ↦ rw e (shown-IsPrintable t rows prices more)
      | inr (i, e) ↦ rw e (
        record {
          small_slot = to_int32-IsSmall s.slot_id slot;
          small_item = to_int32-IsSmall s.item_id item;
          short_name = omega (arith, length-take 49 i.name);
          small_price =
              to_int32-IsSmall i.price
                (All-find_where (λ x. IsSmall x.price) (item_is s.item_id) t.items i prices e);
          small_stock = to_int32-IsSmall s.quantity quantity;
        },
        shown-IsPrintable t rows prices more,
      )
    ]

-- Where every reply is to be: an error, or the list.
abbrev pub stock_error : Sent
stock_error = sent (message (products_status 500) internal_error.body)

abbrev pub stock_listed : List Product → Sent
stock_listed ps = sent (message (products_status 200) (stock_body ps))

error_whole : send_json products_status 8192 internal_error ≡ stock_error
unfolding products_status
error_whole = send_json_whole products_status 8192 internal_error (omega arith) (omega arith)

answer_stock_whole :
    (gives_body : ℕ → Bool) (ps : List Product)
    → All IsPrintable ps
    → length ps ≤ 60
    → (answer_stock gives_body ps ≡ stock_error) ⊎ (answer_stock gives_body ps ≡ stock_listed ps)
unfolding answer_stock products_status
answer_stock_whole gives_body ps h few =
    let bound = length-stock_body ps h in
    let whole =
      send_json_whole products_status 8192 (json 200 (stock_body ps)) (omega (arith, bound))
        (omega arith) in
    ground (arith, bound, whole, error_whole)

All-IsInt :
    (rows : List Slot)
    → All (λ s. IsSmall s.slot_id × IsSmall s.item_id × IsSmall s.quantity) rows
    → All (λ s. IsInt s.slot_id) rows
All-IsInt [] h = tt
All-IsInt (s ∷ rows) h = (IsSmall-IsInt s.slot_id h.0.0, All-IsInt rows h.1)

module _ (e : Sqlite) (laws : IsSqlite e) (d : e.Db) (t : Tables) (fk : Bool) where
  pub handle_get_stock_lem :
      (gives gives_body : ℕ → Bool)
      → laws.view d ≡ idle t fk
      → IsTidy t
      → length t.stock ≤ 60
      → let (out, d') = run e (handle_get_stock gives gives_body) d in
        (laws.view d' ≡ idle t fk)
        × ((out ≡ stock_error)
            ⊎ ((ps : List Product) × (out ≡ stock_listed ps)
                × Perm ps (shown t t.stock)
                × Ascends ps))
  unfolding handle_get_stock
  handle_get_stock_lem gives gives_body h tidy few =
      let rows = ordered_slots t.stock in
      let (same, ends) = products_list-Lists e laws d t fk gives h in
      let printable : All IsPrintable (shown t rows) =
        shown-IsPrintable t rows tidy.prices (All-ordered_slots _ t.stock tidy.slots) in
      let few_shown : length (shown t rows) ≤ 60 =
        omega (arith, length-shown t rows, length-ordered_slots t.stock) in
      rw (run-map e (answer_list gives_body) (products_list gives) d) (
        same,
        elim ends [
          | inl fails ↦ inl (rw (fails, error_whole) refl)
          | inr lists ↦
              rw lists (elim (answer_stock_whole gives_body (shown t rows) printable few_shown) [
                | inl error ↦ inl error
                | inr listed ↦ inr (
                  shown t rows,
                  listed,
                  shown-ordered_slots t t.stock,
                  shown-Ascends t rows (All-ordered_slots _ t.stock (All-IsInt t.stock tidy.slots))
                      (ordered_slots-SlotsAscend t.stock),
                )
              ])
        ],
      )
