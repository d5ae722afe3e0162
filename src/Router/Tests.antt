-- ===== src/Router/Tests.antt =====
-- Requests that `dispatch` answers, and its theorems at concrete requests.
use sshnack.Base.{◌≡◌, ◌≢◌, refl, true, false, some, []}
use sshnack.Base.Text.{codes, tokens, str_eq}
use sshnack.Auth.{nobody}
use sshnack.Router.{
  post, patch, Request, init_router, dispatch, admit, call, handle_lookup_user, handle_post_restock,
  forbidden,
}
use sshnack.Router.Laws.{route_of, dispatch_public}
use sshnack.Router.Documented.{documented, dispatch-documented}

abbrev restock : Request
restock = record { method = some patch; path = codes "/stock/17"; body = []; auth = nobody }

abbrev user_lookup : Request
user_lookup = record { method = some post; path = codes "/users/lookup"; body = []; auth = nobody }

admit_restock :
    admit (route_of (tokens b'/' restock.path)) restock.method false ≡ call handle_post_restock
unfolding route_of tokens str_eq
admit_restock = refl

admit_lookup :
    (admit (route_of (tokens b'/' user_lookup.path)) user_lookup.method false ≡ forbidden)
    × (admit (route_of (tokens b'/' user_lookup.path)) user_lookup.method true
        ≡ call handle_lookup_user)
unfolding route_of tokens str_eq
admit_lookup = (refl, refl)

dispatch-documented_example :
    dispatch (init_router (λ _. true)) restock false
    ≡ documented (tokens b'/' restock.path) restock.method false
dispatch-documented_example = dispatch-documented restock false

dispatch_public_example :
    dispatch (init_router (λ _. true)) user_lookup false ≢ call handle_lookup_user
dispatch_public_example = dispatch_public user_lookup
