-- ===== src/Interleaved/Turns.antt =====
-- One call of one worker, outside a transaction and inside its own.
use sshnack.Base.{none}
use sshnack.Services.Balance.{balance_get, balance_deposit, balance_reset}
use sshnack.Services.Orders.{orders_purchase}
use sshnack.Services.Products.{product_get, product_restock, product_update_price}
use sshnack.Services.Products.Listing.{products_list}
use sshnack.Services.Users.{users_lookup}
use sshnack.Ledger.{ServiceCall, service}
use sshnack.Interleaved.Safe.{Safe, Safe-map}
use sshnack.Interleaved.Services.{
  balance_get-Safe, product_get-Safe, update_price-Safe, products_list-Safe, users_lookup-Safe,
}
use sshnack.Interleaved.Money.{balance_deposit-Safe, balance_reset-Safe}
use sshnack.Interleaved.Stock.{product_restock-Safe}
use sshnack.Interleaved.Purchase.{orders_purchase-Safe}

pub service-Safe : (c : ServiceCall) → Safe none (service c)
service-Safe (ServiceCall.get_balance uid) =
    Safe-map _ none (balance_get uid) (balance_get-Safe uid)
service-Safe (ServiceCall.reset uid) = Safe-map _ none (balance_reset uid) (balance_reset-Safe uid)
service-Safe (ServiceCall.get_product sid) =
    Safe-map _ none (product_get sid) (product_get-Safe sid)
service-Safe (ServiceCall.deposit uid amount) =
    Safe-map _ none (balance_deposit uid amount) (balance_deposit-Safe uid amount)
service-Safe (ServiceCall.purchase uid sid) =
    Safe-map _ none (orders_purchase uid sid) (orders_purchase-Safe uid sid)
service-Safe (ServiceCall.restock sid qty) =
    Safe-map _ none (product_restock sid qty) (product_restock-Safe sid qty)
service-Safe (ServiceCall.update_price iid price) =
    Safe-map _ none (product_update_price iid price) (update_price-Safe iid price)
service-Safe (ServiceCall.lookup fp) = Safe-map _ none (users_lookup fp) (users_lookup-Safe fp)
service-Safe (ServiceCall.list gives) =
    Safe-map _ none (products_list gives) (products_list-Safe gives)
