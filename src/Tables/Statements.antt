-- ===== src/Tables/Statements.antt =====
-- The SQL texts of db.c and of the services, with their bound parameters, and what each of them
-- means for the tables: the rows that it gives and the tables after it, or `none` where a
-- constraint refuses it. All columns that are read are integers, but for the name of an item.
use sshnack.Base.{Bool, Option, none, some, List, [], ◌∷◌, ◌++◌, if◌then◌else◌, ◌&&◌}
use sshnack.Base.Int.{ℤ, pos, ◌+ℤ◌, ◌-ℤ◌, leb_ℤ}
use sshnack.Base.Text.{Text}
use sshnack.Tables.{
  User, Item, Slot, TransactionType, purchase, Transaction, ChangeType, StockLog, Tables,
  find_where, update_where, all_where, user_is, item_is, slot_is, fingerprint_is, check_user,
  check_slot, check_amounts, check_change, refers, refers_item,
}

pub data Column : Type 0 where
  int : ℤ → Column
  text : Text → Column

abbrev pub Row : Type 0
Row = List Column

pub data Sql : Type 0 where
  -- SELECT balance FROM users WHERE user_id = ?
  select_balance : (user_id : ℤ) → Sql
  -- INSERT INTO users (user_id, balance) VALUES (?, ?)
  -- ON CONFLICT(user_id) DO UPDATE SET balance = balance + excluded.balance
  upsert_balance : (user_id amount : ℤ) → Sql
  -- UPDATE users SET balance = 0 WHERE user_id = ?
  reset_balance : (user_id : ℤ) → Sql
  -- UPDATE users SET balance = balance - ? WHERE user_id = ?
  deduct_balance : (price user_id : ℤ) → Sql
  -- INSERT INTO users (fingerprint) VALUES (?)
  -- ON CONFLICT(fingerprint) DO UPDATE SET fingerprint = excluded.fingerprint RETURNING user_id
  upsert_user : (fingerprint : Text) → Sql
  -- SELECT s.item_id, i.price, s.quantity FROM stock s JOIN items i ON s.item_id = i.item_id
  -- WHERE s.slot_id = ?
  select_slot : (slot_id : ℤ) → Sql
  -- SELECT s.slot_id, s.item_id, i.name, i.price, s.quantity FROM stock s JOIN items i
  -- ON s.item_id = i.item_id WHERE s.slot_id = ?
  select_product : (slot_id : ℤ) → Sql
  -- SELECT s.slot_id, s.item_id, i.name, i.price, s.quantity FROM stock s JOIN items i
  -- ON s.item_id = i.item_id ORDER BY s.slot_id
  select_products : Sql
  -- SELECT item_id FROM stock WHERE slot_id = ?
  select_slot_item : (slot_id : ℤ) → Sql
  -- UPDATE stock SET quantity = quantity - 1 WHERE slot_id = ?
  take_one : (slot_id : ℤ) → Sql
  -- UPDATE stock SET quantity = quantity + ? WHERE slot_id = ?
  add_stock : (qty slot_id : ℤ) → Sql
  -- UPDATE items SET price = ? WHERE item_id = ?
  set_price : (price item_id : ℤ) → Sql
  -- INSERT INTO transactions (type, user_id, item_id, quantity, total_amount)
  -- VALUES ('purchase', ?, ?, 1, ?)
  insert_purchase : (user_id item_id total : ℤ) → Sql
  -- INSERT INTO transactions (type, user_id, total_amount) VALUES (?, ?, ?)
  insert_cash : TransactionType → (user_id total : ℤ) → Sql
  -- INSERT INTO stock_logs (item_id, change_type, quantity_changed) VALUES (?, ?, ?)
  insert_stock_log : (item_id : ℤ) → ChangeType → (qty : ℤ) → Sql

-- The rows of a statement and the tables after it.
abbrev pub Effect : Type 0
Effect = Option (List Row × Tables)

abbrev when : Bool → List Row × Tables → Effect
when ok e = if ok then some e else none

abbrev row_of {ℓ} : {A : Type ℓ} → (A → Row) → Option A → List Row
row_of f none = []
row_of f (some a) = f a ∷ []

-- `UPDATE users`, which its CHECK may refuse.
update_users : (User → Bool) → (User → User) → Tables → Effect
update_users p f t =
    when (all_where p (λ u. check_user (f u)) t.users)
      ([], record t { users = update_where p f t.users })

update_stock : (Slot → Bool) → (Slot → Slot) → Tables → Effect
update_stock p f t =
    when (all_where p (λ s. check_slot (f s)) t.stock)
      ([], record t { stock = update_where p f t.stock })

-- A row for `transactions`, under its CHECK and its references.
insert_transaction : Bool → Transaction → Tables → Effect
insert_transaction foreign_keys x t =
    when
      (check_amounts x.type x.item_id x.quantity x.total_amount
        && refers foreign_keys (find_where (user_is x.user_id) t.users)
        && refers_item foreign_keys x.item_id t.items)
      ([], record t { transactions = t.transactions ++ x ∷ [] })

insert_log : Bool → StockLog → Tables → Effect
insert_log foreign_keys x t =
    when
      (check_change x.change_type x.quantity_changed
        && refers_item foreign_keys (some x.item_id) t.items)
      ([], record t { stock_logs = t.stock_logs ++ x ∷ [] })

abbrev pub max_ℤ : ℤ → ℤ → ℤ
max_ℤ a b = if leb_ℤ a b then b else a

-- The new user that an upsert adds; AUTOINCREMENT remembers the largest number.
abbrev pub add_user : User → Tables → Tables
add_user u t = record t { users = t.users ++ u ∷ []; users_seq = max_ℤ t.users_seq u.user_id }

upsert_balance_effect : ℤ → ℤ → Tables → Effect
unfolding update_users
upsert_balance_effect uid amount t = elim (find_where (user_is uid) t.users) [
  | none ↦
      let u : User = record { user_id = uid; fingerprint = none; balance = amount } in
      when (check_user u) ([], add_user u t)
  | some _ ↦ update_users (user_is uid) (λ u. record u { balance = u.balance +ℤ amount }) t
]

upsert_user_effect : Text → Tables → Effect
upsert_user_effect fp t = elim (find_where (fingerprint_is fp) t.users) [
  | none ↦
      let u : User = record {
        user_id = t.users_seq +ℤ pos 1;
        fingerprint = some fp;
        balance = pos 0;
      } in
      some ((int u.user_id ∷ []) ∷ [], add_user u t)
  | some u ↦ some ((int u.user_id ∷ []) ∷ [], t)
]

-- The join of a slot with its item.
abbrev pub join_item : (Slot → Item → Row) → Tables → Option Slot → List Row
join_item f t none = []
join_item f t (some s) = row_of (f s) (find_where (item_is s.item_id) t.items)

-- ORDER BY slot_id.
unfoldable pub insert_slot : Slot → List Slot → List Slot
insert_slot s [] = s ∷ []
insert_slot s (s' ∷ rows) =
    if leb_ℤ s.slot_id s'.slot_id then s ∷ s' ∷ rows else s' ∷ insert_slot s rows

unfoldable pub ordered_slots : List Slot → List Slot
unfolding insert_slot
ordered_slots [] = []
ordered_slots (s ∷ rows) = insert_slot s (ordered_slots rows)

abbrev pub product_row : Slot → Item → Row
product_row s i = int s.slot_id ∷ int s.item_id ∷ text i.name ∷ int i.price ∷ int s.quantity ∷ []

unfoldable pub join_items : (Slot → Item → Row) → Tables → List Slot → List Row
join_items f t [] = []
join_items f t (s ∷ rows) = join_item f t (some s) ++ join_items f t rows

unfoldable pub effect : Bool → Sql → Tables → Effect
unfolding update_users update_stock insert_transaction insert_log upsert_balance_effect
    upsert_user_effect join_items ordered_slots
effect fk (select_balance uid) t =
    some (row_of (λ u. int u.balance ∷ []) (find_where (user_is uid) t.users), t)
effect fk (upsert_balance uid amount) t = upsert_balance_effect uid amount t
effect fk (reset_balance uid) t = update_users (user_is uid) (λ u. record u { balance = pos 0 }) t
effect fk (deduct_balance price uid) t =
    update_users (user_is uid) (λ u. record u { balance = u.balance -ℤ price }) t
effect fk (upsert_user fp) t = upsert_user_effect fp t
effect fk (select_slot sid) t = some (
  join_item (λ s i. int s.item_id ∷ int i.price ∷ int s.quantity ∷ []) t
      (find_where (slot_is sid) t.stock),
  t,
)
effect fk (select_product sid) t =
    some (join_item product_row t (find_where (slot_is sid) t.stock), t)
effect fk select_products t = some (join_items product_row t (ordered_slots t.stock), t)
effect fk (select_slot_item sid) t =
    some (row_of (λ s. int s.item_id ∷ []) (find_where (slot_is sid) t.stock), t)
effect fk (take_one sid) t =
    update_stock (slot_is sid) (λ s. record s { quantity = s.quantity -ℤ pos 1 }) t
effect fk (add_stock qty sid) t =
    update_stock (slot_is sid) (λ s. record s { quantity = s.quantity +ℤ qty }) t
effect fk (set_price price iid) t =
    some (
      [],
      record t { items = update_where (item_is iid) (λ i. record i { price = price }) t.items },
    )
effect fk (insert_purchase uid iid total) t =
    insert_transaction fk
      (record {
        type = purchase;
        user_id = uid;
        item_id = some iid;
        quantity = some (pos 1);
        total_amount = total;
      })
      t
effect fk (insert_cash type uid total) t =
    insert_transaction fk
      (record { type = type; user_id = uid; item_id = none; quantity = none; total_amount = total })
      t
effect fk (insert_stock_log iid type qty) t =
    insert_log fk (record { item_id = iid; change_type = type; quantity_changed = qty }) t
