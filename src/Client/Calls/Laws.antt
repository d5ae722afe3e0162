-- ===== src/Client/Calls/Laws.antt =====
-- What the results of the client's calls tell of the transfer.
use sshnack.Base.{
  ◌≡◌, ◌++◌, inl, inr, refl, arith, true, false, Option, none, some, List, [], ◌∷◌, if◌then◌else◌,
  leb, Bool-cases, append_assoc, append-nil, map, not, ◌∙◌, ap,
}
use sshnack.Base.Text.{Text, codes}
use sshnack.App.{Status, api_ok, api_err_network, api_err_http, api_err_parse, Product}
use sshnack.Client.Http.{
  Buf, data_of, write_cb, receive, Transfer, performed, Curl, ApiClient, options_for, do_request,
}
use sshnack.Client.Calls.{
  elements_read, Json, api_get_stock, stock_result, read_element, read_elements,
}

-- The pieces in a row.
unfoldable pub joined : List Text → Text
joined [] = []
joined (piece ∷ pieces) = piece ++ joined pieces

receive_onto :
    (b : Buf) (pieces : List Text)
    → (got : Buf) × (receive (λ _. true) pieces b ≡ some got)
      × (data_of got ≡ data_of b ++ joined pieces)
unfolding receive write_cb joined
receive_onto b [] = (b, refl, rw (append-nil (data_of b)) refl)
receive_onto b (piece ∷ pieces) =
    let (got, taken, text) = receive_onto (some (data_of b ++ piece)) pieces in
    (got, ground (arith, taken), text ∙ append_assoc (data_of b) piece (joined pieces))

-- Where no `realloc` fails, the text that the client reads is what the transfer brought, however it
-- was cut into pieces.
pub receive_all :
    (pieces : List Text)
    → (got : Buf) × (receive (λ _. true) pieces none ≡ some got) × (data_of got ≡ joined pieces)
receive_all pieces = receive_onto none pieces

module _ (json : Json) where
  -- The list that a text stands for: one product for each element of the array.
  abbrev pub array_listed : Option (List json.Value) → Status × List Product
  array_listed none = (api_err_parse, [])
  array_listed (some els) = (api_ok, map (read_element json) els)

  abbrev pub listed : Option json.Value → Status × List Product
  listed none = (api_err_parse, [])
  listed (some root) = array_listed (json.elements root)

  -- What a list of the stock is to be, by the transfer.
  abbrev pub stock_meant : Transfer → Status × List Product
  stock_meant x =
      if not x.succeeds
      then (api_err_network, [])
      else if leb 400 x.status
      then (api_err_http, [])
      else listed (json.parse (joined x.pieces))

  read_elements-map : (els : List json.Value) → read_elements json els ≡ map (read_element json) els
  unfolding read_elements
  read_elements-map [] = refl
  read_elements-map (el ∷ els) = rw (read_elements-map els) refl

  array_read :
      (els : Option (List json.Value)) → elements_read json (λ _. true) els ≡ array_listed els
  array_read none = refl
  array_read (some els) = ap (λ ps. (api_ok, ps)) (read_elements-map els)

  root_read :
      (root : Option json.Value)
      → (elim root [
        | none ↦ (api_err_parse, [])
        | some v ↦ elements_read json (λ _. true) (json.elements v)
      ])
        ≡ listed root
  root_read none = refl
  root_read (some v) = array_read (json.elements v)

  stock_result_meant :
      (x : Transfer) → stock_result json (λ _. true) (performed (λ _. true) x) ≡ stock_meant x
  unfolding stock_result
  stock_result_meant x = elim (Bool-cases x.succeeds) [
    | inr fails ↦ rw fails refl
    | inl succeeds ↦
        (let (got, taken, text) = receive_all x.pieces in
          elim (Bool-cases (leb 400 x.status)) [
            | inl high ↦ rw (succeeds, taken, high) refl
            | inr low ↦
                rw (succeeds, taken, low) (rw text (root_read (json.parse (joined x.pieces))))
          ])
  ]

  -- Where no allocation of the client fails, the list of the stock is as the transfer says, however
  -- its text was cut into pieces: API_ERR_NETWORK where it fails, API_ERR_HTTP for a status of 400 and
  -- more, one product for each element where the text is a JSON array, and API_ERR_PARSE otherwise.
  pub api_get_stock_lem :
      (curl : Curl) (c : ApiClient) (w : curl.World)
      → api_get_stock curl json (λ _. true) (λ _. true) c w ≡ (
          let (x, w') = curl.perform (options_for c (codes "GET") (codes "/stock") none false) w in
          (stock_meant x, w'))
  unfolding api_get_stock do_request
  api_get_stock_lem curl c w =
      let (x, w') = curl.perform (options_for c (codes "GET") (codes "/stock") none false) w in
      ap (λ r. (r, w')) (stock_result_meant x)
