-- ===== src/Catalog.antt =====
-- The catalog: `create_category`, `create_item` and `add_values_to_item` (bot/database/methods/create.py),
-- `update_item`, `update_category` and `set_item_sale` (update.py), `delete_item`, `delete_only_items`,
-- `delete_item_from_position` and `delete_category` (delete.py), with the foreign keys of
-- bot/database/models/main.py that a deletion follows.
pub mod References
pub mod Integrity
pub mod Editing
pub mod Renaming
pub mod Deleting
pub mod History
pub mod Waiting
use telegramshop_zijjn.Prelude.{
  ℕ, suc, ◌==◌, leb, if◌then◌else◌, Bool, true, false, not, ◌&&◌, ◌||◌, Option, none, some, List,
  [], ◌∷◌, ◌++◌, ℤ, Text, text_eq, codes, strip, length, first, exists, map, select_where,
  update_where, delete_where,
}
use telegramshop_zijjn.Models.{
  Category, Good, SaleUntil, unset, ItemValue, BoughtGood, PromoCode, CartItem, StockSubscription,
  AuditEntry,
}
use telegramshop_zijjn.Store.{Store, log_audit}

abbrev pub has_category_id : ℕ → Category → Bool
has_category_id i c = c.id == i

abbrev pub has_category_name : Text → Category → Bool
has_category_name name c = text_eq c.name name

abbrev pub has_id : ℕ → Good → Bool
has_id i g = g.id == i

abbrev pub has_good_name : Text → Good → Bool
has_good_name name g = text_eq g.name name

abbrev pub in_category : ℕ → Good → Bool
in_category i g = g.category_id == i

-- `select(Categories.id).where(Categories.name == name)`; a serial id is never 0, which `not cat` would
-- take for none.
unfoldable pub category_named : Text → Store → Option Category
category_named name db = first (has_category_name name) db.categories

unfoldable pub good_named : Text → Store → Option Good
good_named name db = first (has_good_name name) db.goods

unfoldable pub create_category : Text → Store → Store
create_category name db = if exists (has_category_name name) db.categories then db else record db {
  categories = db.categories ++ record { id = db.next_id; name = name } ∷ [];
  next_id = suc db.next_id;
}

abbrev pub new_good : ℕ → Text → Text → ℤ → ℕ → Good
new_good id name description price category_id = record {
  id = id;
  name = name;
  price = price;
  description = description;
  category_id = category_id;
  sale_percent = none;
  sale_until = unset;
  delivery_template = none;
}

pub insert_good : Text → Text → ℤ → Option Category → Store → Store
insert_good name description price none db = db
insert_good name description price (some c) db = record db {
  goods = db.goods ++ new_good db.next_id name description price c.id ∷ [];
  next_id = suc db.next_id;
}

unfoldable pub create_item : Text → Text → ℤ → Text → Store → Store
create_item item_name item_description item_price category_name db =
    if exists (has_good_name (strip item_name)) db.goods
    then db
    else insert_good (strip item_name) item_description item_price
        (category_named (strip category_name) db) db

abbrev pub is_value : ℕ → Text → ItemValue → Bool
is_value item_id value v =
    v.item_id == item_id && (elim v.value [ none ↦ false | some t ↦ text_eq t value ])

abbrev pub new_value : ℕ → ℕ → Text → Bool → ItemValue
new_value id item_id value is_infinity = record {
  id = id;
  item_id = item_id;
  value = some value;
  is_infinity = is_infinity;
  quantity = 1;
  delivery_type = codes "text";
  file_path = none;
  file_name = none;
}

pub insert_value : Text → Bool → Option Good → Store → Bool × Store
insert_value value is_infinity none db = (false, db)
insert_value value is_infinity (some g) db =
    if exists (is_value g.id value) db.item_values then (false, db) else (
      true,
      record db {
        item_values = db.item_values ++ new_value db.next_id g.id value is_infinity ∷ [];
        next_id = suc db.next_id;
      },
    )

-- A race for the same value is lost with an IntegrityError, which answers false, as a duplicate does.
unfoldable pub add_values_to_item : Text → Text → Bool → Store → Bool × Store
add_values_to_item item_name value is_infinity db =
    if leb (length (strip value)) 0
    then (false, db)
    else insert_value (strip value) is_infinity (good_named item_name db) db

pub data UpdateError : Type 0 where
  position_invalid position_exists db_error : UpdateError

abbrev pub edited : Text → Text → ℤ → ℕ → Good → Good
edited name description price category_id g = record g {
  name = name;
  description = description;
  price = price;
  category_id = category_id;
}

abbrev pub is_bought_of : Text → BoughtGood → Bool
is_bought_of name b = text_eq b.item_name name

abbrev pub bought_as : Text → BoughtGood → BoughtGood
bought_as name b = record b { item_name = name }

-- `with_names` is the rename of the purchases, which the source makes only for a new name.
pub edit_good : Good → Text → Text → Text → ℤ → Category → Store → Option UpdateError × Store
edit_good g item_name new_name description price c db =
    let goods = update_where (has_id g.id) (edited new_name description price c.id) db.goods in
    if text_eq new_name item_name
    then (none, record db { goods = goods })
    else if exists (has_good_name new_name) db.goods
    then (some position_exists, db)
    else (
      none,
      record db {
        goods = goods;
        bought_goods = update_where (is_bought_of item_name) (bought_as new_name) db.bought_goods;
      },
    )

pub edit_in : Good → Text → Text → Text → ℤ → Option Category → Store → Option UpdateError × Store
edit_in g item_name new_name description price none db = (some position_invalid, db)
edit_in g item_name new_name description price (some c) db =
    edit_good g item_name new_name description price c db

pub edit_found : Option Good → Text → Text → Text → ℤ → Text → Store → Option UpdateError × Store
edit_found none item_name new_name description price category db = (some position_invalid, db)
edit_found (some g) item_name new_name description price category db =
    edit_in g item_name new_name description price (category_named category db) db

-- `fails`: the database raises a SQLAlchemyError, whatever was written is rolled back.
unfoldable pub update_item :
    Bool → Text → Text → Text → ℤ → Text → Store → Option UpdateError × Store
update_item fails item_name new_name description price category db =
    if fails
    then (some db_error, db)
    else edit_found (good_named item_name db) item_name new_name description price category db

-- What `update_category` raises: its own ValueError, or the IntegrityError of the unique constraint on
-- the names of categories, which rolls the rename back.
pub data RenameError : Type 0 where
  category_not_found integrity_error : RenameError

abbrev pub renamed_category : Text → Category → Category
renamed_category name c = record c { name = name }

-- The source does not ask whether the new name is taken. The row that was found is the one with the old
-- name.
pub rename_category : Text → Category → Store → Option RenameError × Store
rename_category new_name c db =
    if not (text_eq c.name new_name) && exists (has_category_name new_name) db.categories
    then (some integrity_error, db)
    else (
      none,
      record db {
        categories =
            update_where (has_category_name c.name) (renamed_category new_name) db.categories;
      },
    )

unfoldable pub update_category : Text → Text → Store → Option RenameError × Store
update_category category_name new_name db = elim (category_named category_name db) [
  | none ↦ (some category_not_found, db)
  | some c ↦ rename_category new_name c db
]

abbrev pub on_sale : Option ℤ → SaleUntil → Good → Good
on_sale percent until g = record g { sale_percent = percent; sale_until = until }

unfoldable pub set_item_sale : Text → Option ℤ → SaleUntil → Store → Bool × Store
set_item_sale item_name percent until db = elim (good_named item_name db) [
  | none ↦ (false, db)
  | some g ↦
      (true, record db { goods = update_where (has_id g.id) (on_sale percent until) db.goods })
]

abbrev pub unbound_item : PromoCode → PromoCode
unbound_item p = record p { item_id = none }

abbrev pub unbound_category : PromoCode → PromoCode
unbound_category p = record p { category_id = none }

-- The foreign keys to a product: stock, cart lines and subscriptions go with it (CASCADE), promo codes
-- lose their binding (SET NULL). `goes` tells the ids of the products that are deleted.
pub delete_goods : (Good → Bool) → (ℕ → Bool) → Store → Store
delete_goods q goes db = record db {
  goods = delete_where q db.goods;
  item_values = delete_where (λ v. goes v.item_id) db.item_values;
  cart_items = delete_where (λ c. goes c.item_id) db.cart_items;
  stock_subscriptions = delete_where (λ s. goes s.item_id) db.stock_subscriptions;
  promo_codes =
      update_where (λ p. elim p.item_id [ none ↦ false | some i ↦ goes i ]) unbound_item
        db.promo_codes;
}

unfoldable pub delete_item : Text → Store → Store
delete_item item_name db = elim (good_named item_name db) [
  | none ↦ db
  | some g ↦ delete_goods (has_id g.id) (λ i. g.id == i) db
]

unfoldable pub delete_only_items : Text → Store → Store
delete_only_items item_name db = elim (good_named item_name db) [
  | none ↦ db
  | some g ↦ record db { item_values = delete_where (λ v. v.item_id == g.id) db.item_values }
]

unfoldable pub delete_item_from_position : ℕ → Store → Store
delete_item_from_position i db = record db {
  item_values = delete_where (λ v. v.id == i) db.item_values;
}

abbrev pub cascade_entry : Text → AuditEntry
cascade_entry name = record {
  action = codes "cascade_delete";
  user_id = none;
  resource_id = some name;
}

abbrev pub unbind_category : ℕ → Store → Store
unbind_category i db = record db {
  promo_codes =
      update_where (λ p. elim p.category_id [ none ↦ false | some c ↦ c == i ]) unbound_category
        db.promo_codes;
}

abbrev pub drop_category : Category → Store → Store
drop_category c db = record db { categories = delete_where (has_category_id c.id) db.categories }

-- The category with its products, and what hangs on them.
pub cascade : Category → Store → Store
cascade c db = unbind_category c.id (
    drop_category c (
      delete_goods (in_category c.id) (λ i. exists (λ g. g.id == i && in_category c.id g) db.goods)
        db))

unfoldable pub delete_category : Text → Store → Store
delete_category name db = elim (category_named name db) [
  | none ↦ db
  | some c ↦
      cascade c
        (if exists (in_category c.id) db.goods then log_audit (cascade_entry name) db else db)
]

-- A change of the catalog, and a history of them.
pub data Change : Type 0 where
  category_created category_deleted item_deleted stock_cleared : Text → Change
  item_created : Text → Text → ℤ → Text → Change
  value_added : Text → Text → Bool → Change
  item_updated : Bool → Text → Text → Text → ℤ → Text → Change
  sale_set : Text → Option ℤ → SaleUntil → Change
  row_deleted : ℕ → Change
  category_renamed : Text → Text → Change

pub apply : Change → Store → Store
apply (category_created name) db = create_category name db
apply (category_deleted name) db = delete_category name db
apply (item_deleted name) db = delete_item name db
apply (stock_cleared name) db = delete_only_items name db
apply (item_created name description price category) db =
    create_item name description price category db
apply (value_added name value is_infinity) db = (add_values_to_item name value is_infinity db).1
apply (item_updated fails name new_name description price category) db =
    (update_item fails name new_name description price category db).1
apply (sale_set name percent until) db = (set_item_sale name percent until db).1
apply (row_deleted i) db = delete_item_from_position i db
apply (category_renamed name new_name) db = (update_category name new_name db).1

pub apply_all : List Change → Store → Store
apply_all [] db = db
apply_all (c ∷ cs) db = apply_all cs (apply c db)
