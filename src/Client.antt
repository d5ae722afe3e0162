-- ===== src/Client.antt =====
-- The paths and bodies of the requests of tui/src/api_client.c, each printed into 64 bytes.
pub mod Laws
pub mod Http
pub mod Calls
mod Tests
use sshnack.Base.{◌++◌, take}
use sshnack.Base.Int.{ℤ}
use sshnack.Base.Text.{Text, codes}
use sshnack.Base.Number.{print_int}

-- `snprintf(buf, sizeof(buf), "<prefix>%d<rest>", v)` with a buffer of 64 bytes.
abbrev pub printed : Text → ℤ → Text → Text
printed prefix v rest = take 63 (prefix ++ print_int v rest)

abbrev pub deposit_body : ℤ → Text
deposit_body amount_gr = printed (codes "{\"amount_gr\":") amount_gr (codes "}")

abbrev pub purchase_body : ℤ → Text
purchase_body slot_id = printed (codes "{\"slot_id\":") slot_id (codes "}")

abbrev pub restock_path : ℤ → Text
restock_path slot_id = printed (codes "/stock/") slot_id (codes "")

abbrev pub restock_body : ℤ → Text
restock_body qty = printed (codes "{\"qty\":") qty (codes "}")

abbrev pub price_path : ℤ → Text
price_path item_id = printed (codes "/items/") item_id (codes "")

abbrev pub price_body : ℤ → Text
price_body price_gr = printed (codes "{\"price_gr\":") price_gr (codes "}")
