-- ===== src/Terminal/Laws.antt =====
-- The end of the loop in `main` of tui/src/tui.c, and the screens that it draws.
use sshnack.Base.{◌≡◌, refl, arith, Bool, true, false, if◌then◌else◌, inl, inr, ◌⊎◌}
use sshnack.Base.{ℕ, ◌≤◌, ◌++◌, some, List, [], ◌∷◌, All}
use sshnack.Base.Int.{ℤ}
use sshnack.Base.Text.{Text}
use sshnack.App.Invariant.{IsOk}
use sshnack.App.Session.{app_handle_key-IsOk, app_init-IsOk}
use sshnack.App.{api_ok}
use sshnack.App.Keys.{app_init}
use sshnack.Client.Calls.{client_api}
use sshnack.Client.Http.{ApiClient, Curl, api_client_init}
use sshnack.Client.Calls.{Json}
use sshnack.Config.{Environment}
use sshnack.Ui.Screen.Rows.{OnScreen}
use sshnack.Ui.Screen.Laws.{ui_render-OnScreen}
use sshnack.Ui.Cell.{Mark}
use sshnack.Terminal.{new_client, while_running, Shown, main_loop, run_client, client_main}
use sshnack.App.{App, Api, Key, char, InputMode, mode_browse, mode_prompt}
use sshnack.App.Keys.{feed_konami}
use sshnack.App.Handle.{app_handle_key, offline_key, online_key}

-- An application that the key q ends.
Quits : App → Type 0
Quits a = (a.server_down ≡ true) ⊎ (a.mode ≡ mode_browse)

module _ (api : Api) where
  -- A key once the sequence of keys is noted.
  abbrev handled : Bool → InputMode → Key → App → api.World → App × api.World
  handled down mode key a w = if down then offline_key api key a w else online_key api mode key a w

  escape_lem :
      (down : Bool) (mode : InputMode) (a : App) (w : api.World)
      → a.server_down ≡ down
      → a.mode ≡ mode
      → Quits (handled down mode (char 27) a w).0
  unfolding Quits
  escape_lem true mode a w d m = inl d
  escape_lem false mode_prompt a w d m = inr refl
  escape_lem false mode_browse a w d m = inr (ground (arith, m))

  quit_lem :
      (down : Bool) (mode : InputMode) (a : App) (w : api.World)
      → a.server_down ≡ down
      → a.mode ≡ mode
      → Quits a
      → (handled down mode (char b'q') a w).0.running ≡ false
  unfolding Quits
  quit_lem true mode a w d m q = refl
  quit_lem false mode_browse a w d m q = refl
  quit_lem false mode_prompt a w d m q = ground (arith, d, m, q)

  noted-Quits : (key : Key) (a : App) → Quits a → Quits (feed_konami key a)
  unfolding Quits feed_konami
  noted-Quits key a (inl d) = inl (ground (arith, d))
  noted-Quits key a (inr m) = inr (ground (arith, m))

  -- Esc leaves a prompt, and q ends the loop from wherever Esc leads.
  escape_quits :
      (a : App) (w : api.World)
      → let (a', w') = app_handle_key api (char 27) a w in
        (app_handle_key api (char b'q') a' w').0.running ≡ false
  unfolding app_handle_key
  escape_quits a w =
      let b = feed_konami (char 27) a in
      let (a', w') = handled b.server_down b.mode (char 27) b w in
      let c = feed_konami (char b'q') a' in
      quit_lem c.server_down c.mode c w' refl refl
        (noted-Quits (char b'q') a' (escape_lem b.server_down b.mode b w refl refl))

-- One round of the loop.
round_stops :
    (b : Bool) (screen : List Mark) (rest : Shown)
    → b ≡ false
    → (while_running b screen rest).code ≡ some 0
unfolding while_running
round_stops true screen rest h = absurd (cc)
round_stops false screen rest h = refl

round_ends :
    (b : Bool) (screen : List Mark) (rest : Shown)
    → rest.code ≡ some 0
    → (while_running b screen rest).code ≡ some 0
unfolding while_running
round_ends true screen rest h = h
round_ends false screen rest h = refl

round-All :
    (P : List Mark → Type 0) (b : Bool) (screen : List Mark) (rest : Shown)
    → P screen
    → All P rest.screens
    → All P (while_running b screen rest).screens
unfolding while_running
round-All P true screen rest h k = (h, k)
round-All P false screen rest h k = tt

module _ (lines cols : ℕ) (api : Api) (user_id : ℤ) where
  abbrev loop : List Key → App × api.World → Shown
  loop = main_loop lines cols api user_id

  stopped :
      (keys : List Key) (a : App) (w : api.World)
      → a.running ≡ false
      → (loop keys (a, w)).code ≡ some 0
  unfolding main_loop
  stopped [] a w h = round_stops a.running _ _ h
  stopped (key ∷ keys) a w h = round_stops a.running _ _ h

  -- The loop ends if it ends after its next key.
  goes_on :
      (key : Key) (keys : List Key) (a : App) (w : api.World)
      → (loop keys (app_handle_key api key a w)).code ≡ some 0
      → (loop (key ∷ keys) (a, w)).code ≡ some 0
  unfolding main_loop
  goes_on key keys a w h = round_ends a.running _ _ h

  main_loop_ends :
      (keys more : List Key) (a : App) (w : api.World)
      → (loop (keys ++ char 27 ∷ char b'q' ∷ more) (a, w)).code ≡ some 0
  main_loop_ends [] more a w =
      let (a', w') = app_handle_key api (char 27) a w in
      let (a'', w'') = app_handle_key api (char b'q') a' w' in
      goes_on (char 27) (char b'q' ∷ more) a w
        (goes_on (char b'q') more a' w' (stopped more a'' w'' (escape_quits api a w)))
  main_loop_ends (key ∷ keys) more a w =
      let (a', w') = app_handle_key api key a w in
      goes_on key (keys ++ char 27 ∷ char b'q' ∷ more) a w (main_loop_ends keys more a' w')

  main_loop-OnScreen :
      9 ≤ lines
      → 127 ≤ cols
      → (keys : List Key) (a : App) (w : api.World) → IsOk a
      → All (All (OnScreen lines cols)) (loop keys (a, w)).screens
  unfolding main_loop
  main_loop-OnScreen high wide [] a w h =
      round-All (All (OnScreen lines cols)) a.running _ _
        (ui_render-OnScreen lines cols high wide user_id a h.text).0 tt
  main_loop-OnScreen high wide (key ∷ keys) a w h =
      let (a', w') = app_handle_key api key a w in
      round-All (All (OnScreen lines cols)) a.running _ _
        (ui_render-OnScreen lines cols high wide user_id a h.text).0
        (main_loop-OnScreen high wide keys a' w' (app_handle_key-IsOk api key a w h))

module _ (lines cols : ℕ) (curl : Curl) (json : Json) (gives callocs : ℕ → Bool) where
  client_ends :
      (client : ApiClient) (keys more : List Key) (w : curl.World)
      → (run_client lines cols curl json gives callocs api_ok client
          (keys ++ char 27 ∷ char b'q' ∷ more)
          w).code
        ≡ some 0
  unfolding run_client client_api
  client_ends client keys more w =
      let api = client_api curl json gives callocs client in
      let (a, w') = app_init api w in main_loop_ends lines cols api client.user_id keys more a w'

  client-OnScreen :
      (client : ApiClient) (keys : List Key) (w : curl.World)
      → 9 ≤ lines
      → 127 ≤ cols
      → All
          (All (OnScreen lines cols))
          (run_client lines cols curl json gives callocs api_ok client keys w).screens
  unfolding run_client client_api
  client-OnScreen client keys w high wide =
      let api = client_api curl json gives callocs client in
      let (a, w') = app_init api w in
      main_loop-OnScreen lines cols api client.user_id high wide keys a w' (app_init-IsOk api w)

  -- The program ends once Esc and then q are typed, whatever keys come before, whatever the server
  -- and the libraries answer and whatever the environment and the arguments say: its exit code is 0,
  -- or 1 where `curl_easy_init` gives no handle.
  pub client_main_ends :
      (getenv : Environment) (args : List Text) (handle : Bool) (keys more : List Key)
      (w : curl.World)
      → (client_main lines cols curl json gives callocs getenv args handle
          (keys ++ char 27 ∷ char b'q' ∷ more)
          w).code
        ≡ some (if handle then 0 else 1)
  unfolding client_main new_client api_client_init run_client
  client_main_ends getenv args true keys more w =
      client_ends (new_client getenv args true).1 keys more w
  client_main_ends getenv args false keys more w = refl

  -- All that the program ever draws is on the screen, which has at least 9 rows and 127 columns,
  -- whatever keys are typed and whatever the server and the libraries answer.
  pub client_main-OnScreen :
      (getenv : Environment) (args : List Text) (handle : Bool) (keys : List Key) (w : curl.World)
      → 9 ≤ lines
      → 127 ≤ cols
      → All
          (All (OnScreen lines cols))
          (client_main lines cols curl json gives callocs getenv args handle keys w).screens
  unfolding client_main new_client api_client_init run_client
  client_main-OnScreen getenv args true keys w high wide =
      client-OnScreen (new_client getenv args true).1 keys w high wide
  client_main-OnScreen getenv args false keys w high wide = tt
