-- ===== src/Server/Tests.antt =====
-- Whole connections at a small machine.
use sshnack.Base.{
  take, length, ℕ, List, ◌≡◌, ◌++◌, refl, true, false, some, [], ◌∷◌, arith, ◌≤◌, ◌^◌,
}
use sshnack.Base.Int.{pos, int_laws, to_int32}
use sshnack.Base.Text.{Text, codes}
use sshnack.Auth.{auth_user}
use sshnack.Router.{Request, post}
use sshnack.Base.Number.{print_int, digits_onto}
use sshnack.Tables.{Tables, find_where}
use sshnack.Tables.Statements.{ordered_slots, insert_slot}
use sshnack.Tables.Range.{InRange}
use sshnack.Sqlite.{run}
use sshnack.Sqlite.Faulty.{Db, faulty, faulty-IsSqlite, calm}
use sshnack.Services.Common.{idle}
use sshnack.Services.Balance.Laws.{deposit_row}
use sshnack.Services.Products.Listing.{products_list}
use sshnack.Services.Products.Listing.Laws.{shown}
use sshnack.Services.Products.Listing.Success.{products_list_succeeds}
use sshnack.Handlers.Stock.{stock_body, more_entries, stock_entry}
use sshnack.Handlers.Send.{Sent, admin_status, balance_status, orders_status, users_status}
use sshnack.Handlers.{
  handle_post_restock, handle_post_update_price, handle_get_balance, handle_delete_balance,
  handle_post_deposit, handle_post_purchase, handle_lookup_user,
}
use sshnack.Handlers.Stock.Laws.{IsTidy}
use sshnack.Ledger.{IsBalanced, booked}
use sshnack.Ledger.Steps.{Sound}
use sshnack.Server.{Server, handle_client, c_string}
use sshnack.Server.Accept.{
  Calls, Startup, Arrival, Poll, polled, poll_failed, main, create_socket, accept_loop, accept_one,
}
use sshnack.Server.Accept.Laws.{main_accounts, clients_of, queued, refused, dropped}
use sshnack.Api.{parse_request}
use sshnack.Server.Guarded.{Guarded, handle_client-Guarded}
use sshnack.Server.Books.{handle_client-Sound}
use sshnack.Server.Delivery.{Answered, handle_client-Answered}
use sshnack.Server.Answers.{handlers_send_whole, SendsWhole}

abbrev machine : Tables
machine = record {
  users =
      record { user_id = pos 1; fingerprint = some (codes "SHA256:a"); balance = pos 1200 } ∷ [];
  users_seq = pos 1;
  items =
      record { item_id = pos 1; name = codes "Cola"; price = pos 500 }
      ∷ record { item_id = pos 2; name = codes "Water"; price = pos 250 }
      ∷ [];
  stock =
      record { slot_id = pos 12; item_id = pos 2; quantity = pos 3 }
      ∷ record { slot_id = pos 11; item_id = pos 1; quantity = pos 2 }
      ∷ [];
  transactions = deposit_row (pos 1) (pos 1200) ∷ [];
  stock_logs = [];
}

machine-InRange : InRange machine
machine-InRange = omega arith

machine-IsTidy : IsTidy machine
machine-IsTidy = omega arith

abbrev sorted_stock : Text
sorted_stock =
    codes "[{\"slot_id\":11,\"item_id\":1,\"name\":\"Cola\",\"price_gr\":500,\"stock_qty\":2},"
    ++ codes "{\"slot_id\":12,\"item_id\":2,\"name\":\"Water\",\"price_gr\":250,\"stock_qty\":3}]"

stock_body_runs : stock_body (shown machine (ordered_slots machine.stock)) ≡ sorted_stock
unfolding stock_body more_entries stock_entry shown ordered_slots insert_slot find_where print_int
    digits_onto to_int32
stock_body_runs = refl

machine-IsBalanced : IsBalanced machine
unfolding booked find_where
machine-IsBalanced uid = grind int_laws

abbrev server : Server
server = record { admin_token = codes "secret"; gives = λ _. true; gives_body = λ _. true }

-- A purchase by user 1.
abbrev purchase_bytes : Text
purchase_bytes = codes "POST /orders HTTP/1.1\r\nAuthorization: Bearer 1\r\n\r\n{\"slot_id\":11}"

-- The sixth call fails.
abbrev failing : Db
failing = record {
  view = idle machine true;
  faults = false ∷ false ∷ false ∷ false ∷ false ∷ true ∷ [];
}

handle_client-Sound_example :
    Sound true (run faulty (handle_client server false purchase_bytes) failing).1.view
handle_client-Sound_example =
    handle_client-Sound faulty faulty-IsSqlite failing machine true refl machine-InRange
      machine-IsBalanced server false purchase_bytes

handle_client-Guarded_example :
    let auth = (parse_request server.admin_token (c_string (take 2047 purchase_bytes))).auth in
    let (out, d') = run faulty (handle_client server false purchase_bytes) failing in
    Guarded auth.role auth.user_id machine true d'.view
handle_client-Guarded_example =
    handle_client-Guarded faulty faulty-IsSqlite failing machine true server purchase_bytes refl
      machine-InRange

handle_client-Answered_example :
    (out : Sent) × ((run faulty
        (handle_client server false (b'G' ∷ codes "ET /stock HTTP/1.1\r\n\r\n"))
        failing).0
      ≡ some out)
    × Answered out
handle_client-Answered_example =
    handle_client-Answered faulty faulty-IsSqlite failing machine true refl machine-IsTidy
      (omega arith) server false b'G' (codes "ET /stock HTTP/1.1\r\n\r\n")

few_slots : length machine.stock ≤ 2 ^ 30
few_slots = omega arith

products_list_succeeds_example :
    run faulty (products_list (λ _. true)) (calm (idle machine true))
    ≡ ((pos 0, some (shown machine (ordered_slots machine.stock))), calm (idle machine true))
products_list_succeeds_example = products_list_succeeds machine true few_slots

abbrev deposit_req : Request
deposit_req = record {
  method = some post;
  path = codes "/balance";
  body = codes "{\"amount_gr\":250}";
  auth = record { role = auth_user; user_id = pos 1 };
}

handlers_send_whole_example :
    SendsWhole faulty failing admin_status (handle_post_restock deposit_req)
    × SendsWhole faulty failing admin_status (handle_post_update_price deposit_req)
    × SendsWhole faulty failing balance_status (handle_get_balance deposit_req)
    × SendsWhole faulty failing balance_status (handle_delete_balance deposit_req)
    × SendsWhole faulty failing balance_status (handle_post_deposit deposit_req)
    × SendsWhole faulty failing orders_status (handle_post_purchase deposit_req)
    × SendsWhole faulty failing users_status (handle_lookup_user deposit_req)
handlers_send_whole_example = handlers_send_whole faulty failing deposit_req

-- Three rounds: a client at each socket, then one for which `malloc` gives nothing and one that the
-- pool does not take, and then a failure of `poll`.
abbrev calls : ℕ → Calls
calls n = record {
  socket = some n;
  setsockopt = true;
  inet_pton = true;
  bind = true;
  listen = true;
}

abbrev startup : Startup
startup = record { db = true; pool = true; public_calls = calls 3; internal_calls = calls 4 }

abbrev arrival : ℕ → Arrival
arrival n = record { ready = true; client_sock = some n; gives = true; added = true }

abbrev rounds : List Poll
rounds =
    polled (arrival 5) (arrival 6)
    ∷ polled (record (arrival 7) { gives = false }) (record (arrival 8) { added = false })
    ∷ poll_failed
    ∷ []

main_runs :
    (main startup rounds).1.work
    ≡ record { sock = 5; internal = false } ∷ record { sock = 6; internal = true } ∷ []
unfolding main create_socket accept_loop accept_one
main_runs = refl

starts : (main startup rounds).0 ≡ pos 0
unfolding main create_socket
starts = refl

main_accounts_example :
    ((main startup rounds).1.work ≡ clients_of queued rounds)
    × ((main startup rounds).1.closed ≡ clients_of refused rounds)
    × ((main startup rounds).1.lost ≡ clients_of dropped rounds)
main_accounts_example = main_accounts startup rounds starts
