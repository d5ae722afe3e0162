-- ===== src/Wire/Reads.antt =====
-- `app_refresh` of tui/src/app.c over the network: its two GET requests, up to the server's tables.
use sshnack.Base.{◌≡◌, ◌≢◌, ◌≤◌, ◌++◌, refl, arith, Bool, false, none, some, [], ◌∷◌, length, take}
use sshnack.Base.Text.{Text, codes, str_eq, tokens}
use sshnack.Base.Number.{print_int}
use sshnack.Auth.{auth_user}
use sshnack.Api.{bearer_of, strip_nocase, parse_method}
use sshnack.Api.Laws.{last_bearer}
use sshnack.Router.{Request, get}
use sshnack.Router.Laws.{route_of, dispatch-init_router}
use sshnack.Tables.{Tables}
use sshnack.Tables.Statements.{effect}
use sshnack.Sqlite.{Sqlite, IsSqlite, run}
use sshnack.Sqlite.Logic.{Wp, Wp-sound}
use sshnack.Services.Common.{idle}
use sshnack.Services.Balance.{balance_get}
use sshnack.Services.Products.Listing.{products_list}
use sshnack.Services.Products.Listing.Laws.{products_list-Lists}
use sshnack.App.Money.Laws.{take-length}
use sshnack.Config.Laws.{IsUser, user_token}
use sshnack.Base.Int.{ℤ}
use sshnack.Handlers.Stock.{answer_list}
use sshnack.Handlers.Send.{send_json, balance_status}
use sshnack.Base.{ap, inl, inr, ℕ, ◌≤◌}
use sshnack.App.{App, Status, Product}
use sshnack.App.Keys.{do_buy, bought, app_refresh}
use sshnack.Client.Http.{Curl, do_request}
use sshnack.Client.Calls.{Json, api_get_stock, api_get_balance, client_api}
use sshnack.Wire.{Delivers}
use sshnack.Handlers.{balance_reply, handle_get_balance}
use sshnack.Handlers.Laws.{run-map}
use sshnack.Handlers.Stock.{handle_get_stock}
use sshnack.Server.{Server, handle_request, carry_out, respond, sending}
use sshnack.Client.Laws.{length-print_int}
use sshnack.Client.Http.{ApiClient, options_for, fields_for, bearer_line}
use sshnack.Wire.{carried}

abbrev pub get_request : ApiClient → Text → Request
get_request c path = record {
  method = some get;
  path = path;
  body = [];
  auth = record { role = auth_user; user_id = c.user_id };
}

token_read_alone :
    (c : ApiClient)
    → IsUser c.user_id
    → last_bearer [] (bearer_line c false ∷ []) ≡ print_int c.user_id []
unfolding bearer_line bearer_of strip_nocase
token_read_alone c h =
    let short : length (print_int c.user_id []) ≤ 11 =
      omega (arith, length-print_int c.user_id [] h.1) in
    rw (take-length 177 (print_int c.user_id []) (omega (arith, short)))
      (take-length 127 (print_int c.user_id []) (omega (arith, short)))

carried_get :
    (c : ApiClient) (server : Server) (target : Text → Text) (path : Text)
    → IsUser c.user_id
    → print_int c.user_id [] ≢ server.admin_token
    → target (take 511 (c.base_url ++ path)) ≡ path
    → carried server target (options_for c (codes "GET") path none false) ≡ get_request c path
unfolding options_for fields_for parse_method str_eq
carried_get c server target path user other at_path =
    rw (token_read_alone c user, user_token c.user_id server.admin_token user other, at_path) refl

stock_route :
    (server : Server) (c : ApiClient)
    → handle_request server false (some get) (get_request c (codes "/stock"))
      ≡ handle_get_stock server.gives server.gives_body
unfolding handle_request carry_out respond route_of tokens str_eq
stock_route server c = rw (dispatch-init_router (get_request c (codes "/stock")) false) refl

balance_route :
    (server : Server) (c : ApiClient)
    → handle_request server false (some get) (get_request c (codes "/balance"))
      ≡ sending balance_status (handle_get_balance (get_request c (codes "/balance")))
unfolding handle_request carry_out respond route_of tokens str_eq
balance_route server c = rw (dispatch-init_router (get_request c (codes "/balance")) false) refl

balance_get-Wp :
    (uid : ℤ) (t : Tables) (fk : Bool) → Wp (balance_get uid) (λ r v. v ≡ idle t fk) (idle t fk)
unfolding Wp balance_get effect
balance_get-Wp uid t fk = ground arith

-- What the server does for the two requests that `app_refresh` makes.
module _ (e : Sqlite) (laws : IsSqlite e) (d : e.Db) (t : Tables) (fk : Bool)
    (start : laws.view d ≡ idle t fk) where
  stock_keeps :
      (server : Server) (c : ApiClient)
      → laws.view
          (run e (handle_request server false (some get) (get_request c (codes "/stock"))) d).1
        ≡ idle t fk
  unfolding handle_get_stock
  stock_keeps server c = rw (stock_route server c) (
      rw (run-map e (answer_list server.gives_body) (products_list server.gives) d)
        (products_list-Lists e laws d t fk server.gives start).0)

  balance_keeps :
      (server : Server) (c : ApiClient)
      → laws.view
          (run e (handle_request server false (some get) (get_request c (codes "/balance"))) d).1
        ≡ idle t fk
  unfolding handle_get_balance
  balance_keeps server c = rw (balance_route server c) (
      rw
        (run-map e (send_json balance_status 512)
          (handle_get_balance (get_request c (codes "/balance"))) d)
        (rw (run-map e (balance_reply (codes "{\"balance_gr\":")) (balance_get c.user_id) d) (
          Wp-sound e laws (λ r v. v ≡ idle t fk) (balance_get c.user_id) d
            (rw start (balance_get-Wp c.user_id t fk)))))

-- `app_refresh` and the parts of `do_buy` of the application over the calls of this client.
module _ (curl : Curl) (json : Json) (gives callocs : ℕ → Bool) (c : ApiClient) where
  unfoldable pub client_refresh : App → curl.World → App × curl.World
  unfolding client_api
  client_refresh = app_refresh (client_api curl json gives callocs c)

  unfoldable pub client_bought : Status → Product → App → curl.World → App × curl.World
  unfolding client_api
  client_bought = bought (client_api curl json gives callocs c)

  unfoldable pub client_buy : App → curl.World → App × curl.World
  unfolding client_api
  client_buy = do_buy (client_api curl json gives callocs c)

module _ (curl : Curl) (json : Json) (gives callocs : ℕ → Bool) (c : ApiClient) (server : Server)
    (e : Sqlite) (laws : IsSqlite e) (link : Delivers curl server e c) (user : IsUser c.user_id)
    (other : print_int c.user_id [] ≢ server.admin_token) (t : Tables) (fk : Bool) where
  -- A GET whose work on the server keeps the tables.
  read_keeps :
      (path : Text) (w : curl.World)
      → length path ≤ 63
      → laws.view (link.connection w) ≡ idle t fk
      → laws.view
          (run e
            (handle_request server false (some get) (get_request c path))
            (link.connection w)).1
        ≡ idle t fk
      → laws.view (link.connection (curl.perform (options_for c (codes "GET") path none false) w).1)
        ≡ idle t fk
  read_keeps path w short start kept =
      let options = options_for c (codes "GET") path none false in
      let read = carried_get c server link.target path user other (link.target_law path short) in
      let works = ap (λ (r : Request). handle_request server false r.method r) read in
      let delivered = (rw works at (link.delivery options w)) in
      elim delivered [
        | inl (_, inl same) ↦ rw same start
        | inl (_, inr done) ↦ rw done kept
        | inr (done, _) ↦ rw done kept
      ]

  pub api_get_stock_keeps :
      (w : curl.World)
      → laws.view (link.connection w) ≡ idle t fk
      → laws.view (link.connection (api_get_stock curl json gives callocs c w).1) ≡ idle t fk
  unfolding api_get_stock do_request
  api_get_stock_keeps w start =
      read_keeps (codes "/stock") w (omega arith) start
        (stock_keeps e laws (link.connection w) t fk start server c)

  pub api_get_balance_keeps :
      (w : curl.World)
      → laws.view (link.connection w) ≡ idle t fk
      → laws.view (link.connection (api_get_balance curl json gives callocs c w).1) ≡ idle t fk
  unfolding api_get_balance do_request
  api_get_balance_keeps w start =
      read_keeps (codes "/balance") w (omega arith) start
        (balance_keeps e laws (link.connection w) t fk start server c)

  pub client_refresh_keeps :
      (a : App) (w : curl.World)
      → laws.view (link.connection w) ≡ idle t fk
      → laws.view (link.connection (client_refresh curl json gives callocs c a w).1) ≡ idle t fk
  unfolding client_refresh app_refresh client_api
  client_refresh_keeps a w start =
      api_get_balance_keeps (api_get_stock curl json gives callocs c w).1
        (api_get_stock_keeps w start)
