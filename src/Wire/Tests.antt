-- ===== src/Wire/Tests.antt =====
-- A network that brings every request to the server, and its answer back.
use sshnack.Base.{
  ◌≡◌, ◌≢◌, ◌⊎◌, inl, inr, refl, true, false, some, none, [], ◌∷◌, arith, drop, Option,
  Option-cases,
}
use sshnack.Base.Int.{ℤ, pos, negsuc}
use sshnack.Base.Text.{Text, codes}
use sshnack.Base.Number.{print_int, digits_onto}
use sshnack.App.Money.Laws.{take-length}
use sshnack.App.{api_err_network}
use sshnack.Tables.{Tables}
use sshnack.Tables.Range.{InRange}
use sshnack.Sqlite.{run}
use sshnack.Sqlite.Faulty.{Db, faulty, faulty-IsSqlite}
use sshnack.Services.Common.{idle}
use sshnack.Services.Orders.Laws.{purchase_of}
use sshnack.Handlers.Laws.{deposit_of}
use sshnack.Handlers.Send.{Sent, sent, past_buffer, overflow}
use sshnack.Server.{Server, handle_request}
use sshnack.Server.Fits.{status_of}
use sshnack.Client.{purchase_body, deposit_body}
use sshnack.Client.Http.{ApiClient, HttpRequest, Transfer, Curl}
use sshnack.Client.Calls.{Json, api_purchase, api_deposit}
use sshnack.App.{App, Product}
use sshnack.App.Keys.{cleared}
use sshnack.Wire.Reads.{client_buy}
use sshnack.Wire.Message.{Honest, do_buy-Honest}
use sshnack.Wire.{carried, Delivers}
use sshnack.Wire.Told.{Told}
use sshnack.Wire.Orders.{NotPerformed, api_purchase-Told, api_deposit-Told}

abbrev machine : Tables
machine = record {
  users =
      record { user_id = pos 1; fingerprint = some (codes "SHA256:a"); balance = pos 1200 } ∷ [];
  users_seq = pos 1;
  items = record { item_id = pos 1; name = codes "Cola"; price = pos 500 } ∷ [];
  stock = record { slot_id = pos 11; item_id = pos 1; quantity = pos 2 } ∷ [];
  transactions = [];
  stock_logs = [];
}

machine-InRange : InRange machine
machine-InRange = omega arith

abbrev server : Server
server = record { admin_token = codes "secret"; gives = λ _. true; gives_body = λ _. true }

abbrev client : ApiClient
client = record { base_url = codes "http://s"; user_id = pos 1; admin_token = codes "" }

abbrev failed : Transfer
failed = record { succeeds = false; status = 0; pieces = [] }

abbrev by_status : Option ℤ → Transfer
by_status (some (pos n)) = record { succeeds = true; status = n; pieces = [] }
by_status (some (negsuc n)) = failed
by_status none = failed

abbrev heard : Sent → Transfer
heard (sent text) = by_status (status_of text)
heard past_buffer = failed
heard overflow = failed

abbrev target : Text → Text
target url = drop 8 url

unfoldable loopback_perform : HttpRequest → Db → Transfer × Db
loopback_perform req d =
    let r = carried server target req in
    let (out, d') = run faulty (handle_request server false r.method r) d in (heard out, d')

abbrev loopback : Curl
loopback = record { World = Db; perform = loopback_perform }

heard_told :
    (out : Sent) (d d' : Db)
    → (((heard out).succeeds ≡ false) × ((d' ≡ d) ⊎ (d' ≡ d')))
      ⊎ ((d' ≡ d')
          × ((text : Text) × (out ≡ sent text) × (status_of text ≡ some (pos (heard out).status))))
heard_told past_buffer d d' = inl (refl, inr refl)
heard_told overflow d d' = inl (refl, inr refl)
heard_told (sent text) d d' = elim (Option-cases (status_of text)) [
  | inl none_read ↦ rw none_read (inl (refl, inr refl))
  | inr (pos n, read) ↦ inr (refl, (text, refl, rw read refl))
  | inr (negsuc n, read) ↦ rw read (inl (refl, inr refl))
]

loopback-Delivers : Delivers loopback server faulty client
unfolding loopback_perform
loopback-Delivers = record {
  connection = λ d. d;
  target = target;
  target_law = λ path h. take-length 503 path (omega (arith, h));
  delivery = λ req w.
      let r = carried server target req in
      let (out, d') = run faulty (handle_request server false r.method r) w in heard_told out w d';
}

-- A reader of JSON that accepts nothing; these calls do not ask it.
abbrev no_json : Json
no_json = record {
  Value = Text;
  parse = λ _. none;
  get_object_item = λ _ _. none;
  valueint = λ _. none;
  valuestring = λ _. none;
  elements = λ _. none;
}

not_admin : print_int (pos 1) [] ≢ codes "secret"
unfolding print_int digits_onto
not_admin e = cc

abbrev failing : Db
failing = record {
  view = idle machine true;
  faults = false ∷ false ∷ false ∷ false ∷ false ∷ true ∷ [];
}

api_purchase-Told_example :
    let (st, d') = api_purchase loopback no_json (λ _. true) (λ _. true) client (pos 11) failing in
    Told (purchase_of (pos 1) (pos 11) machine) machine true st d'.view
    × (st ≡ api_err_network
        → NotPerformed loopback
            (λ _. true)
            client
            (codes "/orders")
            (purchase_body (pos 11))
            failing)
unfolding loopback-Delivers
api_purchase-Told_example =
    api_purchase-Told loopback no_json (λ _. true) (λ _. true) client server faulty faulty-IsSqlite
      loopback-Delivers (omega arith) not_admin (pos 11) failing machine true (omega arith) refl
      machine-InRange

api_deposit-Told_example :
    let (st, d') = api_deposit loopback no_json (λ _. true) (λ _. true) client (pos 250) failing in
    Told (deposit_of (pos 1) (pos 250) machine) machine true st d'.view
    × (st ≡ api_err_network
        → NotPerformed loopback
            (λ _. true)
            client
            (codes "/balance")
            (deposit_body (pos 250))
            failing)
unfolding loopback-Delivers
api_deposit-Told_example =
    api_deposit-Told loopback no_json (λ _. true) (λ _. true) client server faulty faulty-IsSqlite
      loopback-Delivers (omega arith) not_admin (pos 250) failing machine true (omega arith) refl

abbrev cola : Product
cola = record {
  slot_id = pos 11;
  item_id = pos 1;
  price_gr = pos 500;
  stock_qty = pos 2;
  name = codes "Cola";
}

abbrev browsing : App
browsing = record cleared { products = cola ∷ []; balance_gr = pos 1200 }

do_buy-Honest_example :
    let (a', d') = client_buy loopback no_json (λ _. true) (λ _. true) client browsing failing in
    Honest loopback no_json
      (λ _. true)
      (λ _. true)
      client
      server
      faulty
      faulty-IsSqlite
      loopback-Delivers
      (omega arith)
      not_admin
      machine
      true
      cola
      a'
      d'
unfolding loopback-Delivers
do_buy-Honest_example =
    do_buy-Honest loopback no_json (λ _. true) (λ _. true) client server faulty faulty-IsSqlite
      loopback-Delivers (omega arith) not_admin machine true cola browsing failing refl
      (omega arith) refl machine-InRange
