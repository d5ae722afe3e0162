-- ===== src/Handlers/Tests.antt =====
-- Requests at a small machine, and the theorems on the handlers at them.
use sshnack.Base.{refl, true, false, some, [], ◌∷◌, arith}
use sshnack.Base.Int.{pos}
use sshnack.Base.Text.{codes, Text}
use sshnack.Auth.{AuthInfo, auth_user, auth_admin, nobody}
use sshnack.Router.{Request, post, patch}
use sshnack.Tables.{Tables}
use sshnack.Tables.Range.{InRange}
use sshnack.Sqlite.{run}
use sshnack.Sqlite.Faulty.{Db, faulty, faulty-IsSqlite}
use sshnack.Services.Common.{idle}
use sshnack.Services.Balance.Laws.{deposit_row}
use sshnack.Handlers.{handle_post_deposit, handle_post_purchase, handle_post_restock}
use sshnack.Handlers.Laws.{
  Served, deposit_meant, purchase_meant, restock_meant, handle_post_deposit-Served,
  handle_post_purchase-Served, handle_post_restock-Served,
}

abbrev machine : Tables
machine = record {
  users =
      record { user_id = pos 1; fingerprint = some (codes "SHA256:a"); balance = pos 1200 } ∷ [];
  users_seq = pos 1;
  items = record { item_id = pos 1; name = codes "Cola Classic"; price = pos 500 } ∷ [];
  stock = record { slot_id = pos 11; item_id = pos 1; quantity = pos 2 } ∷ [];
  transactions = deposit_row (pos 1) (pos 1200) ∷ [];
  stock_logs = [];
}

machine-InRange : InRange machine
machine-InRange = omega arith

-- The sixth call fails.
abbrev failing : Db
failing = record {
  view = idle machine true;
  faults = false ∷ false ∷ false ∷ false ∷ false ∷ true ∷ [];
}

abbrev user : AuthInfo
user = record { role = auth_user; user_id = pos 1 }

abbrev admin : AuthInfo
admin = record { role = auth_admin; user_id = pos 0 }

abbrev deposit_req : Request
deposit_req = record {
  method = some post;
  path = codes "/balance";
  body = codes "{\"amount_gr\":250}";
  auth = user;
}

abbrev purchase_req : Request
purchase_req = record {
  method = some post;
  path = codes "/orders";
  body = codes "{\"slot_id\":11}";
  auth = user;
}

abbrev restock_req : Request
restock_req = record {
  method = some patch;
  path = codes "/stock/11";
  body = codes "{\"qty\":8}";
  auth = admin;
}

abbrev reprice_req : Request
reprice_req = record {
  method = some patch;
  path = codes "/items/1";
  body = codes "{\"price_gr\":650}";
  auth = admin;
}

abbrev lookup_req : Request
lookup_req = record {
  method = some post;
  path = codes "/users/lookup";
  body = codes "{\"fingerprint\": \"SHA256:a\"}";
  auth = nobody;
}

handle_post_deposit-Served_example :
    let (r, d') = run faulty (handle_post_deposit deposit_req) failing in
    Served (deposit_meant deposit_req machine) machine true r d'.view
handle_post_deposit-Served_example =
    handle_post_deposit-Served faulty faulty-IsSqlite failing machine true deposit_req refl

handle_post_purchase-Served_example :
    let (r, d') = run faulty (handle_post_purchase purchase_req) failing in
    Served (purchase_meant purchase_req machine) machine true r d'.view
handle_post_purchase-Served_example =
    handle_post_purchase-Served faulty faulty-IsSqlite failing machine true purchase_req refl
      machine-InRange

handle_post_restock-Served_example :
    let (r, d') = run faulty (handle_post_restock restock_req) failing in
    Served (restock_meant restock_req machine) machine true r d'.view
handle_post_restock-Served_example =
    handle_post_restock-Served faulty faulty-IsSqlite failing machine true restock_req refl
      machine-InRange
