-- ===== src/Terminal.antt =====
-- `main` of tui/src/tui.c: the configuration, the client, and the loop that draws the screen, waits
-- for a key and handles it. The keys that are typed are a list; with the last of them the loop waits
-- in `ui_get_key`. The size of the screen does not change.
pub mod Laws
mod Tests
use sshnack.Base.{true, false, ℕ, Bool, Option, none, some, List, [], ◌∷◌, if◌then◌else◌}
use sshnack.Base.Int.{ℤ}
use sshnack.Base.Text.{Text}
use sshnack.App.{App, Api, Key, Status, api_ok}
use sshnack.App.Keys.{app_init}
use sshnack.App.Handle.{app_handle_key}
use sshnack.Client.Http.{ApiClient, Curl, api_client_init}
use sshnack.Client.Calls.{Json, client_api}
use sshnack.Config.{Environment}
use sshnack.Config.Tui.{load_tui_config}
use sshnack.Ui.Cell.{Mark}
use sshnack.Ui.Screen.{ui_render}

-- The screens that are drawn one after another, and the exit code; `none` while a key is awaited.
pub record Shown : Type 0 where
  pub screens : List (List Mark)
  pub code : Option ℕ

-- A round of `while (app.running)` that draws `screen`, and the rounds after it; or the end.
unfoldable pub while_running : Bool → List Mark → Shown → Shown
while_running true screen rest = record rest { screens = screen ∷ rest.screens }
while_running false screen rest = record { screens = []; code = some 0 }

-- `load_config` and `api_client_init`; `handle` is whether `curl_easy_init` gives a handle.
unfoldable pub new_client : Environment → List Text → Bool → Status × ApiClient
unfolding load_tui_config api_client_init
new_client getenv args handle =
    let cfg = load_tui_config getenv args in
    api_client_init cfg.base_url cfg.user_id cfg.admin_token handle

module _ (lines cols : ℕ) where
  -- The loop; the code 0 where it ends.
  unfoldable pub main_loop : (api : Api) → ℤ → List Key → App × api.World → Shown
  unfolding ui_render app_handle_key while_running
  main_loop api user_id [] (a, w) =
      while_running a.running (ui_render lines cols user_id a)
        (record { screens = []; code = none })
  main_loop api user_id (key ∷ keys) (a, w) =
      let rest = main_loop api user_id keys (app_handle_key api key a w) in
      while_running a.running (ui_render lines cols user_id a) rest

  module _ (curl : Curl) (json : Json) (gives callocs : ℕ → Bool) where
    -- `main` once the client is there, or is not.
    unfoldable pub run_client : Status → ApiClient → List Key → curl.World → Shown
    unfolding client_api main_loop app_init
    run_client api_ok client keys w =
        let api = client_api curl json gives callocs client in
        main_loop api client.user_id keys (app_init api w)
    run_client _ client keys w = record { screens = []; code = some 1 }

    unfoldable pub client_main : Environment → List Text → Bool → List Key → curl.World → Shown
    unfolding run_client new_client
    client_main getenv args handle keys w =
        let (st, client) = new_client getenv args handle in run_client st client keys w
