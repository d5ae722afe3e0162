-- ===== src/Client/Calls.antt =====
-- tui/src/api_client.c: the calls of the server, which fill the `Api` of the application. cJSON is a
-- parameter.
pub mod Laws
use sshnack.Base.{
  ℕ, Bool, true, false, Option, none, some, List, [], ◌∷◌, if◌then◌else◌, take, leb, length,
}
use sshnack.Base.Int.{ℤ, pos}
use sshnack.Base.Text.{Text, codes}
use sshnack.App.{Status, api_ok, api_err_network, api_err_http, api_err_parse, Product, Api}
use sshnack.Client.{deposit_body, purchase_body, restock_path, restock_body, price_path, price_body}
use sshnack.Client.Http.{ApiClient, Curl, Buf, data_of, do_request}

-- What the client uses of cJSON: `cJSON_Parse`, `cJSON_GetObjectItem`, the numbers and strings of
-- values that `cJSON_IsNumber` and `cJSON_IsString` accept, and the elements of an array.
pub record Json : Type 1 where
  pub Value : Type 0
  pub parse : Text → Option Value
  pub get_object_item : Value → Text → Option Value
  pub valueint : Value → Option ℤ
  pub valuestring : Value → Option Text
  pub elements : Value → Option (List Value)

-- What a call without a result makes of `do_request`.
unfoldable pub status_only : Option (Buf × ℕ) → Status
status_only none = api_err_network
status_only (some (b, status)) = if leb 400 status then api_err_http else api_ok

module _ (json : Json) where
  -- The number of a field, where there is one.
  unfoldable pub number_field : json.Value → Text → Option ℤ
  number_field v key = elim (json.get_object_item v key) [ none ↦ none | some f ↦ json.valueint f ]

  abbrev number_or_0 : Option ℤ → ℤ
  number_or_0 none = pos 0
  number_or_0 (some n) = n

  abbrev text_or_empty : Option Text → Text
  text_or_empty none = []
  text_or_empty (some s) = s

  unfoldable pub text_field : json.Value → Text → Option Text
  text_field v key = elim (json.get_object_item v key) [ none ↦ none | some f ↦ json.valuestring f ]

  -- A round of `cJSON_ArrayForEach` into memory that `calloc` has cleared.
  unfoldable pub read_element : json.Value → Product
  unfolding number_field text_field
  read_element el = record {
    slot_id = number_or_0 (number_field el (codes "slot_id"));
    item_id = number_or_0 (number_field el (codes "item_id"));
    price_gr = number_or_0 (number_field el (codes "price_gr"));
    stock_qty = number_or_0 (number_field el (codes "stock_qty"));
    name = take 63 (text_or_empty (text_field el (codes "name")));
  }

  unfoldable pub read_elements : List json.Value → List Product
  unfolding read_element
  read_elements [] = []
  read_elements (el ∷ els) = read_element el ∷ read_elements els

  abbrev nonzero : ℕ → ℕ
  nonzero ℕ.zero = 1
  nonzero (ℕ.suc n) = ℕ.suc n

  abbrev pub elements_read : (ℕ → Bool) → Option (List json.Value) → Status × List Product
  elements_read callocs none = (api_err_parse, [])
  elements_read callocs (some els) =
      if callocs (nonzero (length els)) then (api_ok, read_elements els) else (api_err_parse, [])

  -- `api_get_stock` after its request; where the status is not API_OK the list stands for nothing.
  unfoldable pub stock_result : (ℕ → Bool) → Option (Buf × ℕ) → Status × List Product
  unfolding read_elements
  stock_result callocs none = (api_err_network, [])
  stock_result callocs (some (b, status)) =
      if leb 400 status then (api_err_http, []) else elim (json.parse (data_of b)) [
        | none ↦ (api_err_parse, [])
        | some root ↦ elements_read callocs (json.elements root)
      ]

  abbrev number_read : Option ℤ → Status × ℤ
  number_read none = (api_err_parse, pos 0)
  number_read (some n) = (api_ok, n)

  -- `api_get_balance` and `api_refund` after their request; where the status is not API_OK the
  -- number stands for nothing.
  unfoldable pub number_result : Text → Option (Buf × ℕ) → Status × ℤ
  unfolding number_field
  number_result key none = (api_err_network, pos 0)
  number_result key (some (b, status)) =
      if leb 400 status then (api_err_http, pos 0) else elim (json.parse (data_of b)) [
        | none ↦ (api_err_parse, pos 0)
        | some root ↦ number_read (number_field root key)
      ]

module _ (curl : Curl) (json : Json) (gives callocs : ℕ → Bool) (c : ApiClient) where
  abbrev request : Text → Text → Option Text → Bool → curl.World → Option (Buf × ℕ) × curl.World
  request = do_request curl gives c

  unfoldable pub api_get_stock : curl.World → (Status × List Product) × curl.World
  unfolding stock_result
  api_get_stock w =
      let (r, w') = request (codes "GET") (codes "/stock") none false w in
      (stock_result json callocs r, w')

  unfoldable pub api_get_balance : curl.World → (Status × ℤ) × curl.World
  unfolding number_result
  api_get_balance w =
      let (r, w') = request (codes "GET") (codes "/balance") none false w in
      (number_result json (codes "balance_gr") r, w')

  unfoldable pub api_refund : curl.World → (Status × ℤ) × curl.World
  unfolding number_result
  api_refund w =
      let (r, w') = request (codes "DELETE") (codes "/balance") none false w in
      (number_result json (codes "refund_gr") r, w')

  unfoldable pub api_deposit : ℤ → curl.World → Status × curl.World
  unfolding status_only
  api_deposit amount_gr w =
      let (r, w') =
        request (codes "POST") (codes "/balance") (some (deposit_body amount_gr)) false w in
      (status_only r, w')

  unfoldable pub api_purchase : ℤ → curl.World → Status × curl.World
  unfolding status_only
  api_purchase slot_id w =
      let (r, w') =
        request (codes "POST") (codes "/orders") (some (purchase_body slot_id)) false w in
      (status_only r, w')

  unfoldable pub api_restock : ℤ → ℤ → curl.World → Status × curl.World
  unfolding status_only
  api_restock slot_id qty w =
      let (r, w') =
        request (codes "PATCH") (restock_path slot_id) (some (restock_body qty)) true w in
      (status_only r, w')

  unfoldable pub api_set_price : ℤ → ℤ → curl.World → Status × curl.World
  unfolding status_only
  api_set_price item_id price_gr w =
      let (r, w') =
        request (codes "PATCH") (price_path item_id) (some (price_body price_gr)) true w in
      (status_only r, w')

  -- The calls that the application is given.
  unfoldable pub client_api : Api
  client_api = record {
    World = curl.World;
    get_stock = api_get_stock;
    get_balance = api_get_balance;
    refund = api_refund;
    purchase = api_purchase;
    deposit = api_deposit;
    restock = api_restock;
    set_price = api_set_price;
  }
