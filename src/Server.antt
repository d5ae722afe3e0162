-- ===== src/Server.antt =====
-- server/src/api/api.c, `handle_client`: from the bytes of a connection to what it gets, through
-- `parse_request`, `dispatch` and the handlers. `recv`, `send` and the allocations are parameters.
pub mod Accept
pub mod Answers
pub mod Access
pub mod Books
pub mod Delivery
pub mod Fits
pub mod Guarded
mod Tests
use sshnack.Base.{ℕ, ◌==◌, Bool, true, Option, none, some, [], ◌∷◌, if◌then◌else◌, take}
use sshnack.Base.Text.{Text, codes}
use sshnack.Auth.{auth_parse}
use sshnack.Api.{parse_request}
use sshnack.Radix.{RadixTree}
use sshnack.Router.{
  Method, Request, HandlerFn, Handler, Outcome, not_found, forbidden, method_not_allowed, call,
  init_router, dispatch,
}
use sshnack.Sqlite.{Prog, ret, ◌>>=◌}
use sshnack.Handlers.{
  Reply, handle_post_restock, handle_post_update_price, handle_get_balance, handle_delete_balance,
  handle_post_deposit, handle_post_purchase, handle_lookup_user,
}
use sshnack.Handlers.Send.{
  Sent, sent, send_json, admin_status, balance_status, orders_status, users_status,
}
use sshnack.Handlers.Stock.{handle_get_stock, handle_get_slow}

-- What the server gets from its surroundings: the admin token, and which allocations succeed, for
-- the list of the stock by capacity and for its text by size.
pub record Server : Type 0 where
  pub admin_token : Text
  pub gives : ℕ → Bool
  pub gives_body : ℕ → Bool

-- A handler's reply through the `send_json` of its file, whose buffer has 512 bytes.
abbrev pub sending : (ℕ → Text) → Prog Reply → Prog Sent
sending status_str m = m >>= λ r. ret (send_json status_str 512 r)

-- `fn(sock, server, req)`
unfoldable pub respond : Server → HandlerFn → Request → Prog Sent
respond server HandlerFn.handle_get_stock req = handle_get_stock server.gives server.gives_body
respond server HandlerFn.handle_post_restock req = sending admin_status (handle_post_restock req)
respond server HandlerFn.handle_get_balance req = sending balance_status (handle_get_balance req)
respond server HandlerFn.handle_post_deposit req = sending balance_status (handle_post_deposit req)
respond server HandlerFn.handle_delete_balance req =
    sending balance_status (handle_delete_balance req)
respond server HandlerFn.handle_post_purchase req = sending orders_status (handle_post_purchase req)
respond server HandlerFn.handle_post_update_price req =
    sending admin_status (handle_post_update_price req)
respond server HandlerFn.handle_get_slow req = ret handle_get_slow
respond server HandlerFn.handle_lookup_user req = sending users_status (handle_lookup_user req)

-- What `dispatch` sends.
unfoldable pub carry_out : Server → Request → Outcome → Prog Sent
unfolding respond
carry_out server req not_found =
    ret (sent (codes "HTTP/1.1 404 Not Found\r\nContent-Length: 0\r\n\r\n"))
carry_out server req forbidden =
    ret (sent (codes "HTTP/1.1 403 Forbidden\r\nContent-Length: 0\r\n\r\n"))
carry_out server req method_not_allowed =
    ret (sent (codes "HTTP/1.1 405 Method Not Allowed\r\nContent-Length: 0\r\n\r\n"))
carry_out server req (call fn) = respond server fn req

-- The C string at the start of some bytes.
unfoldable pub c_string : Text → Text
c_string [] = []
c_string (b ∷ bytes) = if b == 0 then [] else b ∷ c_string bytes

abbrev pub bad_request : Sent
bad_request = sent (codes "HTTP/1.1 400 Bad Request\r\nContent-Length: 0\r\n\r\n")

-- After `parse_request`.
unfoldable pub handle_request : Server → Bool → Option Method → Request → Prog Sent
unfolding carry_out
handle_request server internal none req = ret bad_request
handle_request server internal (some method) req =
    carry_out server req (dispatch (init_router (λ _. true)) req internal)

-- The bytes that `recv` gives, `[]` where it gives none or fails, and what is sent, `none` where
-- the connection is closed at once. The routes are registered without an allocation that fails.
unfoldable pub handle_client : Server → Bool → Text → Prog (Option Sent)
unfolding handle_request c_string
handle_client server internal [] = ret none
handle_client server internal (b ∷ bytes) =
    let req = parse_request server.admin_token (c_string (take 2047 (b ∷ bytes))) in
    handle_request server internal req.method req >>= λ out. ret (some out)
