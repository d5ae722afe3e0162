-- ===== src/Terminal/Tests.antt =====
-- The program with a server that gives no answer, and a screen.
use sshnack.Base.{◌==◌, ℕ, ◌-◌, ◌≡◌, ◌++◌, true, some, none, [], ◌∷◌, refl, arith, All}
use sshnack.Base.Int.{pos}
use sshnack.Base.Text.{codes}
use sshnack.App.{App, char, Product, mode_prompt, prompt_deposit}
use sshnack.App.Keys.{cleared}
use sshnack.Client.Http.{Curl}
use sshnack.Client.Calls.{Json}
use sshnack.Config.{Environment}
use sshnack.App.Money.{app_fmt_money}
use sshnack.Base.Number.{print_int}
use sshnack.Ui.{draw_grid}
use sshnack.Ui.Cell.{plain, at}
use sshnack.Ui.Screen.{ui_render, draw_title, draw_message, bottom_rows, status_text, status_format}
use sshnack.Ui.Screen.Rows.{OnScreen, InRow, Rising}
use sshnack.Ui.Screen.Laws.{ui_render-OnScreen}
use sshnack.Ui.Laws.{Inside}
use sshnack.Terminal.{client_main}
use sshnack.Terminal.Laws.{client_main_ends, client_main-OnScreen}

abbrev unset : Environment
unset name = none

abbrev no_json : Json
no_json = record {
  Value = ℕ;
  parse = λ s. none;
  get_object_item = λ v key. none;
  valueint = λ v. none;
  valuestring = λ v. none;
  elements = λ v. none;
}

-- Every other transfer fails.
abbrev half_curl : Curl
half_curl = record {
  World = ℕ;
  perform = λ req w. (record { succeeds = w == 0; status = 500; pieces = [] }, 1 - w);
}

client_main_ends_example :
    (client_main 24 130 half_curl no_json
      (λ _. true)
      (λ _. true)
      unset
      []
      true
      (char b'd' ∷ char b'5' ∷ [] ++ (char 27 ∷ char b'q' ∷ []))
      0).code
    ≡ some 0
client_main_ends_example =
    client_main_ends 24 130 half_curl no_json (λ _. true) (λ _. true) unset [] true
      (char b'd' ∷ char b'5' ∷ []) [] 0

client_main-OnScreen_example :
    All
      (All (OnScreen 24 130))
      (client_main 24 130 half_curl no_json
        (λ _. true)
        (λ _. true)
        unset
        []
        true
        (char b'd' ∷ char b'5' ∷ [])
        0).screens
client_main-OnScreen_example =
    client_main-OnScreen 24 130 half_curl no_json (λ _. true) (λ _. true) unset [] true
      (char b'd' ∷ char b'5' ∷ []) 0 (omega arith) (omega arith)

abbrev cola : Product
cola = record {
  slot_id = pos 11;
  item_id = pos 1;
  price_gr = pos 500;
  stock_qty = pos 2;
  name = codes "Cola Classic";
}

abbrev asking : App
asking = record cleared {
  products = cola ∷ [];
  mode = mode_prompt;
  pending = prompt_deposit;
  prompt_label = codes "Deposit amount (zl):";
  message = codes "Sold out";
}

ui_render-OnScreen_example :
    All (OnScreen 24 130) (ui_render 24 130 (pos 67) asking)
    × (All (InRow 130 1) (draw_title 130)
        × All (InRow 130 2) (draw_message 130 (codes "Sold out"))
        × All (Inside 24 130) (draw_grid 24 130 (cola ∷ []) 0 (pos 0))
        × Rising 24 130 20 (bottom_rows 24 130 (pos 67) asking))
ui_render-OnScreen_example =
    ui_render-OnScreen 24 130 (omega arith) (omega arith) (pos 67) asking (omega arith)

status_of_67 : status_text (pos 67) (pos 1205) ≡ codes "user #67    Balance:    12.05 zl"
unfolding status_format app_fmt_money print_int
status_of_67 = refl

down_screen :
    ui_render 24 80 (pos 67) (record cleared { server_down = true })
    ≡ at 11 30 plain (codes "Cannot reach server")
      ∷ at 13 29 plain (codes "[r] retry    [q] quit")
      ∷ []
unfolding ui_render
down_screen = refl
