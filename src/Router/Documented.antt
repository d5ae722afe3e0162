-- ===== src/Router/Documented.antt =====
-- The table of requests that the README documents, by path and method, and `dispatch` over it.
use sshnack.Base.{false, ◌≡◌, ◌∙◌, Bool, true, Option, some, List, [], ◌∷◌, arith, if◌then◌else◌}
use sshnack.Base.Text.{Text, codes, str_eq, tokens}
use sshnack.Router.{
  Method, get, post, patch, delete, Request, Outcome, not_found, forbidden, method_not_allowed,
  call, handle_get_stock, handle_post_restock, handle_get_balance, handle_post_deposit,
  handle_delete_balance, handle_post_purchase, handle_post_update_price, handle_get_slow,
  handle_lookup_user, dispatch, init_router, admit,
}
use sshnack.Router.Laws.{route_of, dispatch-init_router}

on_stock : Option Method → Outcome
on_stock (some get) = call handle_get_stock
on_stock _ = method_not_allowed

on_stock_slot : Option Method → Outcome
on_stock_slot (some patch) = call handle_post_restock
on_stock_slot _ = method_not_allowed

on_balance : Option Method → Outcome
on_balance (some get) = call handle_get_balance
on_balance (some post) = call handle_post_deposit
on_balance (some delete) = call handle_delete_balance
on_balance _ = method_not_allowed

on_orders : Option Method → Outcome
on_orders (some post) = call handle_post_purchase
on_orders _ = method_not_allowed

on_item : Option Method → Outcome
on_item (some patch) = call handle_post_update_price
on_item _ = method_not_allowed

on_slow : Option Method → Outcome
on_slow (some get) = call handle_get_slow
on_slow _ = method_not_allowed

on_lookup : Option Method → Bool → Outcome
on_lookup (some post) true = call handle_lookup_user
on_lookup _ true = method_not_allowed
on_lookup _ false = forbidden

-- What a request with these segments of its path and this method is to meet.
unfoldable pub documented : List Text → Option Method → Bool → Outcome
unfolding on_stock on_stock_slot on_balance on_orders on_item on_slow on_lookup
documented [] method internal = not_found
documented (a ∷ []) method internal =
    if str_eq (codes "stock") a
    then on_stock method
    else if str_eq (codes "balance") a
    then on_balance method
    else if str_eq (codes "orders") a
    then on_orders method
    else not_found
documented (a ∷ b ∷ []) method internal =
    if str_eq (codes "stock") a
    then on_stock_slot method
    else if str_eq (codes "items") a
    then on_item method
    else if str_eq (codes "debug") a
    then (if str_eq (codes "slow") b then on_slow method else not_found)
    else if str_eq (codes "users") a
    then (if str_eq (codes "lookup") b then on_lookup method internal else not_found)
    else not_found
documented (a ∷ b ∷ _ ∷ _) method internal = not_found

admit-documented :
    (ts : List Text) (method : Option Method) (internal : Bool)
    → admit (route_of ts) method internal ≡ documented ts method internal
unfolding route_of documented
admit-documented [] method internal = ground arith
admit-documented (a ∷ []) method internal = ground arith
admit-documented (a ∷ b ∷ []) method internal = ground arith
admit-documented (a ∷ b ∷ c ∷ ts) method internal = ground arith

-- Every request over the routes that `init_router` registers, memory given: `dispatch` calls the
-- handler that the documented table has for the segments of the path and the method, answers 405
-- where the path is in the table with other methods, 404 where it is not, and 403 to every request of
-- the public port for the lookup of users.
pub dispatch-documented :
    (req : Request) (internal : Bool)
    → dispatch (init_router (λ _. true)) req internal
      ≡ documented (tokens b'/' req.path) req.method internal
dispatch-documented req internal =
    dispatch-init_router req internal ∙ admit-documented (tokens b'/' req.path) req.method internal
