-- ===== src/App/Tests.antt =====
-- The client against a server that answers always, and its theorems at concrete inputs.
use sshnack.Base.{inl, Option, ◌≡◌, refl, arith, [], ◌∷◌, ◌+◌, ℕ, List, some}
use sshnack.Base.Int.{pos}
use sshnack.Base.Text.{codes}
use sshnack.App.{Product, Api, Key, key_down, key_enter, char, api_ok, api_err_network}
use sshnack.App.Money.{app_fmt_money, parse_zl_to_gr}
use sshnack.App.Money.Laws.{parse_zl_to_gr-app_fmt_money}
use sshnack.App.Cursor.{vertical_target}
use sshnack.App.Cursor.Laws.{Within}
use sshnack.App.Cursor.Fuel.{vertical_target_ends}
use sshnack.App.Keys.{app_init}
use sshnack.App.Handle.{press}
use sshnack.App.Invariant.{IsOk}
use sshnack.App.Session.{press-IsOk}

abbrev cola : Product
cola = record {
  slot_id = pos 11;
  item_id = pos 1;
  price_gr = pos 500;
  stock_qty = pos 2;
  name = codes "Cola Classic";
}

abbrev chips : Product
chips = record {
  slot_id = pos 23;
  item_id = pos 2;
  price_gr = pos 650;
  stock_qty = pos 0;
  name = codes "Chips";
}

-- The world counts the calls; a deposit finds no network.
abbrev shop : Api
shop = record {
  World = ℕ;
  get_stock = λ w. ((api_ok, cola ∷ chips ∷ []), w + 1);
  get_balance = λ w. ((api_ok, pos 1200), w + 1);
  refund = λ w. ((api_ok, pos 1200), w + 1);
  purchase = λ sid w. (api_ok, w + 1);
  deposit = λ n w. (api_err_network, w + 1);
  restock = λ sid n w. (api_ok, w + 1);
  set_price = λ iid n w. (api_ok, w + 1);
}

abbrev typing : List Key
typing =
    key_down
    ∷ key_enter
    ∷ char b'd'
    ∷ char b'1'
    ∷ char b'.'
    ∷ char b'5'
    ∷ key_enter
    ∷ char b'r'
    ∷ []

typed_amount : parse_zl_to_gr (codes "12.5") ≡ pos 1250
unfolding parse_zl_to_gr
typed_amount = refl

parse_zl_to_gr-app_fmt_money_example : parse_zl_to_gr (app_fmt_money (pos 1205) 16) ≡ pos 1205
parse_zl_to_gr-app_fmt_money_example = parse_zl_to_gr-app_fmt_money 1205 (omega arith)

press-IsOk_example : IsOk (press shop typing (app_init shop 0)).0
press-IsOk_example = press-IsOk shop typing 0

vertical_target_ends_example :
    (found : Option ℕ) × (vertical_target (cola ∷ chips ∷ []) (pos 11) (pos 1) ≡ some found)
    × Within 2 found
vertical_target_ends_example = vertical_target_ends (cola ∷ chips ∷ []) (pos 11) (pos 1) (inl refl)
