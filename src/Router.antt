-- ===== src/Router.antt =====
-- server/src/api/router/router.c: the table of routes, and `dispatch`. A handler's function pointer
-- is its name; what the handlers do is in `Handlers`.
pub mod Laws
pub mod Documented
mod Tests
use sshnack.Base.{ℕ, Bool, true, false, Option, none, some, List, [], ◌∷◌, if◌then◌else◌, not, ◌&&◌}
use sshnack.Base.Text.{Text, codes}
use sshnack.Radix.{RadixTree, new_tree, add_node, search_node}
use sshnack.Auth.{AuthInfo}

pub data Method : Type 0 where
  get post patch delete : Method

-- `request_t`; its method is `none` for `(method_t) -1`.
pub record Request : Type 0 where
  pub method : Option Method
  pub path : Text
  pub body : Text
  pub auth : AuthInfo

pub data HandlerFn : Type 0 where
  handle_get_stock handle_post_restock handle_get_balance handle_post_deposit : HandlerFn
  handle_delete_balance handle_post_purchase handle_post_update_price : HandlerFn
  handle_get_slow handle_lookup_user : HandlerFn

-- `handler_t`
pub record Handler : Type 0 where
  pub get_fn : Option HandlerFn
  pub post_fn : Option HandlerFn
  pub patch_fn : Option HandlerFn
  pub del_fn : Option HandlerFn
  pub internal : Bool

abbrev no_handler : Handler
no_handler = record {
  get_fn = none;
  post_fn = none;
  patch_fn = none;
  del_fn = none;
  internal = false;
}

abbrev pub stock_handler : Handler
stock_handler = record no_handler { get_fn = some handle_get_stock }

abbrev pub stock_slot_handler : Handler
stock_slot_handler = record no_handler { patch_fn = some handle_post_restock }

abbrev pub balance_handler : Handler
balance_handler = record no_handler {
  get_fn = some handle_get_balance;
  post_fn = some handle_post_deposit;
  del_fn = some handle_delete_balance;
}

abbrev pub orders_handler : Handler
orders_handler = record no_handler { post_fn = some handle_post_purchase }

abbrev pub items_handler : Handler
items_handler = record no_handler { patch_fn = some handle_post_update_price }

abbrev pub debug_handler : Handler
debug_handler = record no_handler { get_fn = some handle_get_slow }

abbrev pub user_lookup_handler : Handler
user_lookup_handler = record no_handler { post_fn = some handle_lookup_user; internal = true }

-- `register_route`, which drops the return code.
register_route : (ℕ → Bool) → RadixTree Handler → Text → Handler → RadixTree Handler
unfolding add_node
register_route grows tree path handler = (add_node grows tree path handler).1

-- The routes in the order of `init_router`.
abbrev pub routes : List (Text × Handler)
routes =
    (codes "/stock", stock_handler)
    ∷ (codes "/stock/:slot_id", stock_slot_handler)
    ∷ (codes "/balance", balance_handler)
    ∷ (codes "/orders", orders_handler)
    ∷ (codes "/items/:item_id", items_handler)
    ∷ (codes "/debug/slow", debug_handler)
    ∷ (codes "/users/lookup", user_lookup_handler)
    ∷ []

register_all : (ℕ → Bool) → List (Text × Handler) → RadixTree Handler → RadixTree Handler
unfolding register_route
register_all grows [] tree = tree
register_all grows ((path, handler) ∷ more) tree =
    register_all grows more (register_route grows tree path handler)

-- `init_router` where `init_tree` gives a tree: it does not look for NULL, and the first route would be
-- added to it.
unfoldable pub init_router : (ℕ → Bool) → RadixTree Handler
unfolding register_all new_tree
init_router grows = register_all grows routes (new_tree b'/' b':')

-- What `dispatch` does with a request: an answer of its own, or the call of a handler.
pub data Outcome : Type 0 where
  not_found forbidden method_not_allowed : Outcome
  call : HandlerFn → Outcome

-- The `switch` on the method; `none` where no case fits.
abbrev pub select_fn : Option Method → Handler → Option HandlerFn
select_fn none h = none
select_fn (some get) h = h.get_fn
select_fn (some post) h = h.post_fn
select_fn (some patch) h = h.patch_fn
select_fn (some delete) h = h.del_fn

abbrev pub call_fn : Option HandlerFn → Outcome
call_fn none = method_not_allowed
call_fn (some fn) = call fn

abbrev pub admit : Option Handler → Option Method → Bool → Outcome
admit none method internal = not_found
admit (some h) method internal =
    if h.internal && not internal then forbidden else call_fn (select_fn method h)

unfoldable pub dispatch : RadixTree Handler → Request → Bool → Outcome
unfolding search_node
dispatch tree req internal = admit (search_node tree req.path) req.method internal
