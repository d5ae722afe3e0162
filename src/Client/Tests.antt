-- ===== src/Client/Tests.antt =====
-- The requests of the client at two numbers.
use sshnack.Base.{
  ℕ, ◌+◌, ◌==◌, ◌≡◌, true, false, none, some, [], ◌∷◌, arith, refl, length, if◌then◌else◌,
}
use sshnack.Base.Int.{pos}
use sshnack.Base.Text.{codes, str_eq}
use sshnack.Base.Number.{scan_int}
use sshnack.App.{api_ok}
use sshnack.Client.Http.{Curl, ApiClient, options_for}
use sshnack.Client.Calls.{Json, api_get_stock, read_element, number_field, text_field}
use sshnack.Client.Calls.Laws.{stock_meant, joined, api_get_stock_lem}
use sshnack.Client.{deposit_body, purchase_body, restock_path, restock_body, price_path, price_body}
use sshnack.Client.Laws.{requests_read}

requests_read_example :
    (scan_int (codes "{\"amount_gr\":") (deposit_body (pos 11)) ≡ some (pos 11))
    × (scan_int (codes "{\"slot_id\":") (purchase_body (pos 11)) ≡ some (pos 11))
    × (scan_int (codes "/stock/") (restock_path (pos 11)) ≡ some (pos 11))
    × (scan_int (codes "{\"qty\":") (restock_body (pos 8)) ≡ some (pos 8))
    × (scan_int (codes "/items/") (price_path (pos 11)) ≡ some (pos 11))
    × (scan_int (codes "{\"price_gr\":") (price_body (pos 8)) ≡ some (pos 8))
requests_read_example = requests_read (pos 11) (pos 8) (omega arith) (omega arith)

-- A reader of JSON that knows an array with one object, whose fields have numbers.
abbrev one_json : Json
one_json = record {
  Value = ℕ;
  parse = λ s. if str_eq s (codes "[{}]") then some 0 else none;
  get_object_item = λ v key. some (length key);
  valueint = λ v. some (pos v);
  valuestring = λ v. none;
  elements = λ v. if v == 0 then some (1 ∷ []) else none;
}

-- A transfer in two pieces.
abbrev one_curl : Curl
one_curl = record {
  World = ℕ;
  perform = λ req w.
      (record { succeeds = true; status = 200; pieces = codes "[{" ∷ codes "}]" ∷ [] }, w + 1);
}

abbrev one_client : ApiClient
one_client = record { base_url = codes "http://s"; user_id = pos 1; admin_token = [] }

one_product :
    stock_meant one_json
      (one_curl.perform (options_for one_client (codes "GET") (codes "/stock") none false) 0).0
    ≡ (
      api_ok,
      record { slot_id = pos 7; item_id = pos 7; price_gr = pos 8; stock_qty = pos 9; name = [] }
          ∷ [],
    )
unfolding str_eq read_element joined number_field text_field
one_product = refl

api_get_stock_lem_example : api_get_stock one_curl one_json (λ _. true) (λ _. true) one_client 0 ≡ (
  stock_meant one_json
      (one_curl.perform (options_for one_client (codes "GET") (codes "/stock") none false) 0).0,
  1,
)
api_get_stock_lem_example = api_get_stock_lem one_json one_curl one_client 0
