-- ===== src/App.antt =====
-- tui/src/app.c: the application in the terminal, without its screen. The calls of
-- tui/src/api_client.c are a parameter, an `Api` over some world.
pub mod Money
pub mod Cursor
pub mod Keys
pub mod Handle
pub mod Invariant
pub mod Steps
pub mod Session
mod Tests
use sshnack.Base.{ℕ, Bool, List, take, get_elem?, Option}
use sshnack.Base.Int.{ℤ}
use sshnack.Base.Text.{Text}

-- `api_status_t`
pub data Status : Type 0 where
  api_ok api_err_network api_err_http api_err_parse : Status

-- `product_t` of the client.
pub record Product : Type 0 where
  pub slot_id : ℤ
  pub item_id : ℤ
  pub price_gr : ℤ
  pub stock_qty : ℤ
  pub name : Text

pub data InputMode : Type 0 where
  mode_browse mode_prompt : InputMode

pub data PromptAction : Type 0 where
  prompt_none prompt_deposit prompt_restock prompt_price : PromptAction

-- The keys of ncurses that the program names; every other key is the number of a character.
pub data Key : Type 0 where
  key_up key_down key_left key_right key_enter key_backspace : Key
  char : ℕ → Key

-- `app_t`: `count` is the length of `products`, and `konami` holds the first `konami_pos` keys.
pub record App : Type 0 where
  pub products : List Product
  pub balance_gr : ℤ
  pub selected : ℕ
  pub admin : Bool
  pub running : Bool
  pub server_down : Bool
  pub mode : InputMode
  pub pending : PromptAction
  pub prompt_label : Text
  pub prompt_buf : Text
  pub message : Text
  pub konami : List Key

-- The calls of the server: what they return and the world after them.
pub record Api : Type 1 where
  pub World : Type 0
  pub get_stock : World → (Status × List Product) × World
  pub get_balance : World → (Status × ℤ) × World
  pub refund : World → (Status × ℤ) × World
  pub purchase : ℤ → World → Status × World
  pub deposit : ℤ → World → Status × World
  pub restock : ℤ → ℤ → World → Status × World
  pub set_price : ℤ → ℤ → World → Status × World

-- `snprintf(a->message, MSG_LEN, …)`
abbrev pub say : Text → App → App
say s a = record a { message = take 127 s }

-- `a->products[a->selected]`; nothing where there are no products.
abbrev pub selected_product : App → Option Product
selected_product a = get_elem? a.products a.selected
