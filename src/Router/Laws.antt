-- ===== src/Router/Laws.antt =====
-- Which request goes to which handler.
use sshnack.Base.{
  ◌≡◌, refl, Bool, false, true, Option, none, some, List, [], ◌∷◌, arith, if◌then◌else◌, ◌≢◌, ap,
}
use sshnack.Base.Text.{Text, codes, str_eq, str_eq_sound, tokens}
use sshnack.Radix.{
  Nodes, node, nil, cons, add_path, find_child, add_child, write_child, search_path, next_child,
  find_wildcard, search_node,
}
use sshnack.Router.{
  Method, Request, call, handle_lookup_user, dispatch, admit, Handler, init_router, stock_handler,
  stock_slot_handler, balance_handler, orders_handler, items_handler, debug_handler,
  user_lookup_handler,
}

-- The routing table as it is documented: by the segments of the path.
unfoldable pub route_of : List Text → Option Handler
route_of [] = none
route_of (a ∷ []) =
    if str_eq (codes "stock") a
    then some stock_handler
    else if str_eq (codes "balance") a
    then some balance_handler
    else if str_eq (codes "orders") a
    then some orders_handler
    else none
route_of (a ∷ b ∷ []) =
    if str_eq (codes "stock") a
    then some stock_slot_handler
    else if str_eq (codes "items") a
    then some items_handler
    else if str_eq (codes "debug") a
    then (if str_eq (codes "slow") b then some debug_handler else none)
    else if str_eq (codes "users") a
    then (if str_eq (codes "lookup") b then some user_lookup_handler else none)
    else none
route_of (a ∷ b ∷ _ ∷ _) = none

-- The tree that `init_router` builds when memory does not run out.
abbrev built : Nodes Handler
built =
    cons
      (node (codes "stock") (some stock_handler)
        (cons (node (codes ":slot_id") (some stock_slot_handler) nil) nil))
      (cons (node (codes "balance") (some balance_handler) nil) (
        cons (node (codes "orders") (some orders_handler) nil) (
          cons
            (node (codes "items") none
              (cons (node (codes ":item_id") (some items_handler) nil) nil))
            (cons
              (node (codes "debug") none (cons (node (codes "slow") (some debug_handler) nil) nil))
              (cons
                (node (codes "users") none
                  (cons (node (codes "lookup") (some user_lookup_handler) nil) nil))
                nil)))))

init_router_lem :
    init_router (λ _. true)
    ≡ record { root = node [] none built; delimeter = b'/'; wildcard = b':' }
unfolding init_router add_path tokens find_child add_child str_eq write_child
init_router_lem = refl

search_built : (ts : List Text) → search_path b':' ts (node [] none built) ≡ route_of ts
unfolding search_path next_child find_child find_wildcard route_of
search_built [] = refl
search_built (a ∷ []) = ground arith
search_built (a ∷ b ∷ []) = ground (
  arith,
  str_eq_sound (codes "stock") a,
  str_eq_sound (codes "balance") a,
  str_eq_sound (codes "orders") a,
  str_eq_sound (codes "items") a,
  str_eq_sound (codes "debug") a,
  str_eq_sound (codes "users") a,
)
search_built (a ∷ b ∷ c ∷ ts) = ground arith

-- The tree that `init_router` builds, with its wildcards, finds for every request path the handler
-- record that the documented table gives for the segments of the path, and none where the table
-- has none.
pub search_node-init_router :
    (path : Text) → search_node (init_router (λ _. true)) path ≡ route_of (tokens b'/' path)
unfolding search_node
search_node-init_router path = rw init_router_lem (search_built (tokens b'/' path))

-- `dispatch` over the registered routes: the record of the path decides.
pub dispatch-init_router :
    (req : Request) (internal : Bool)
    → dispatch (init_router (λ _. true)) req internal
      ≡ admit (route_of (tokens b'/' req.path)) req.method internal
unfolding dispatch
dispatch-init_router req internal =
    ap (λ h. admit h req.method internal) (search_node-init_router req.path)

route_public :
    (ts : List Text) (m : Option Method) → admit (route_of ts) m false ≢ call handle_lookup_user
unfolding route_of
route_public [] m = ground arith
route_public (a ∷ []) m = ground arith
route_public (a ∷ b ∷ []) m = ground arith
route_public (a ∷ b ∷ c ∷ ts) m = ground arith

-- No request that comes in on the public port reaches the lookup of users, whatever its path and
-- method are.
pub dispatch_public :
    (req : Request) → dispatch (init_router (λ _. true)) req false ≢ call handle_lookup_user
dispatch_public req =
    rw (dispatch-init_router req false) (route_public (tokens b'/' req.path) req.method)
