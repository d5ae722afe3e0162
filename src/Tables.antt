-- ===== src/Tables.antt =====
-- The tables of init.sql, and what each SQL statement of server/src/services and server/src/db means
-- for them. Integers are unbounded here: SQLite's have 64 bits, and 2 ^ 32 deposits of the largest
-- `int` would be needed to leave them.
pub mod Rows
pub mod Statements
pub mod Range
use sshnack.Base.{
  ℕ, Bool, true, false, Option, none, some, List, [], ◌∷◌, ◌++◌, if◌then◌else◌, not, ◌&&◌, ◌||◌,
}
use sshnack.Base.Int.{ℤ, pos, negsuc, ◌+ℤ◌, ◌-ℤ◌, leb_ℤ, ltb_ℤ, eqb_ℤ}
use sshnack.Base.Text.{Text, str_eq}

pub record User : Type 0 where
  pub user_id : ℤ
  pub fingerprint : Option Text
  pub balance : ℤ

pub record Item : Type 0 where
  pub item_id : ℤ
  pub name : Text
  pub price : ℤ

pub record Slot : Type 0 where
  pub slot_id : ℤ
  pub item_id : ℤ
  pub quantity : ℤ

pub data TransactionType : Type 0 where
  purchase deposit withdrawal refund : TransactionType

pub record Transaction : Type 0 where
  pub type : TransactionType
  pub user_id : ℤ
  pub item_id : Option ℤ
  pub quantity : Option ℤ
  pub total_amount : ℤ

pub data ChangeType : Type 0 where
  addition removal : ChangeType

pub record StockLog : Type 0 where
  pub item_id : ℤ
  pub change_type : ChangeType
  pub quantity_changed : ℤ

-- The five tables, and the largest user_id that AUTOINCREMENT has seen.
pub record Tables : Type 0 where
  pub users : List User
  pub users_seq : ℤ
  pub items : List Item
  pub stock : List Slot
  pub transactions : List Transaction
  pub stock_logs : List StockLog

module _ {A : Type 0} where
  -- The first row that meets a WHERE.
  unfoldable pub find_where : (A → Bool) → List A → Option A
  find_where p [] = none
  find_where p (a ∷ rows) = if p a then some a else find_where p rows

  -- UPDATE … SET … WHERE.
  unfoldable pub update_where : (A → Bool) → (A → A) → List A → List A
  update_where p f [] = []
  update_where p f (a ∷ rows) = (if p a then f a else a) ∷ update_where p f rows

  -- Whether every row that an UPDATE writes meets its CHECK.
  unfoldable pub all_where : (A → Bool) → (A → Bool) → List A → Bool
  all_where p ok [] = true
  all_where p ok (a ∷ rows) = (not (p a) || ok a) && all_where p ok rows

abbrev pub is_some {ℓ} : {A : Type ℓ} → Option A → Bool
is_some none = false
is_some (some _) = true

abbrev pub user_is : ℤ → User → Bool
user_is uid u = eqb_ℤ u.user_id uid

abbrev pub item_is : ℤ → Item → Bool
item_is iid i = eqb_ℤ i.item_id iid

abbrev pub slot_is : ℤ → Slot → Bool
slot_is sid s = eqb_ℤ s.slot_id sid

abbrev pub fingerprint_is : Text → User → Bool
fingerprint_is fp u = elim u.fingerprint [ none ↦ false | some f ↦ str_eq f fp ]

-- CHECK (balance >= 0) and CHECK (quantity >= 0)
abbrev pub check_user : User → Bool
check_user u = leb_ℤ (pos 0) u.balance

abbrev pub check_slot : Slot → Bool
check_slot s = leb_ℤ (pos 0) s.quantity

abbrev pub positive : Option ℤ → Bool
positive none = false
positive (some q) = ltb_ℤ (pos 0) q

abbrev pub negative_ℤ : ℤ → Bool
negative_ℤ z = ltb_ℤ z (pos 0)

-- The CHECK of `transactions`, by the type of the row.
abbrev pub check_amounts : TransactionType → Option ℤ → Option ℤ → ℤ → Bool
check_amounts purchase item qty total = is_some item && positive qty && negative_ℤ total
check_amounts deposit item qty total =
    not (is_some item) && not (is_some qty) && ltb_ℤ (pos 0) total
check_amounts withdrawal item qty total =
    not (is_some item) && not (is_some qty) && negative_ℤ total
check_amounts refund item qty total = is_some item && positive qty && ltb_ℤ (pos 0) total

-- The CHECK of `stock_logs`.
abbrev pub check_change : ChangeType → ℤ → Bool
check_change addition q = ltb_ℤ (pos 0) q
check_change removal q = negative_ℤ q

-- A reference to a row of another table; it is only enforced where foreign_keys is ON.
abbrev pub refers : {A : Type 0} → Bool → Option A → Bool
refers foreign_keys row = not foreign_keys || is_some row

abbrev pub refers_item : Bool → Option ℤ → List Item → Bool
refers_item foreign_keys none items = true
refers_item foreign_keys (some iid) items = refers foreign_keys (find_where (item_is iid) items)
