-- ===== src/Cart.antt =====
-- The lines of a cart: `add_to_cart` (bot/database/methods/create.py), `set_cart_item_quantity`
-- (update.py), `remove_from_cart` and `clear_cart` (delete.py), `get_cart_count` (read.py).
pub mod Limits
pub mod Sequences
use telegramshop_zijjn.Prelude.{
  count, ℕ, zero, suc, ◌+◌, ◌==◌, ltb, leb, if◌then◌else◌, Bool, true, false, not, ◌&&◌, Option,
  none, some, List, [], ◌∷◌, ◌++◌, Text, text_eq, ℤ, pos, ◌+ℤ◌, pos_part, leb_ℤ, first, option_map,
  exists, update_where, delete_where,
}
use telegramshop_zijjn.Models.{Good, CartItem}
use telegramshop_zijjn.Store.{Store}

abbrev pub cart_max_items : ℕ
cart_max_items = 10

abbrev pub cart_max_qty_per_item : ℕ
cart_max_qty_per_item = 99

abbrev pub is_of : ℕ → CartItem → Bool
is_of user_id ci = ci.user_id == user_id

abbrev pub is_line : ℕ → ℕ → CartItem → Bool
is_line user_id item_id ci = ci.user_id == user_id && ci.item_id == item_id

abbrev pub has_line_id : ℕ → CartItem → Bool
has_line_id i ci = ci.id == i

-- The messages of the cart operations.
pub data CartReply : Type 0 where
  added removed changed item_not_found cart_qty_max cart_full invalid_quantity : CartReply
  cart_conflict : CartReply

abbrev pub is_empty : Option Text → Bool
is_empty none = true
is_empty (some []) = true
is_empty (some (c ∷ cs)) = false

abbrev pub with_quantity : ℕ → CartItem → CartItem
with_quantity q ci = record ci { quantity = q }

-- `existing.quantity += quantity`, and the promo code if there is one.
abbrev pub grown : ℕ → Option Text → CartItem → CartItem
grown q code ci =
    if is_empty code then with_quantity q ci else record ci { quantity = q; promo_code = code }

abbrev pub new_line : ℕ → ℕ → Option Text → ℕ → ℕ → CartItem
new_line i user_id code item_id quantity = record {
  id = i;
  user_id = user_id;
  item_id = item_id;
  promo_code = code;
  quantity = quantity;
}

abbrev pub with_lines : List CartItem → Store → Store
with_lines cis db = record db { cart_items = cis }

-- The line exists: it grows.
pub grow_line : CartItem → Option Text → ℕ → Store → CartReply × Store
grow_line existing code quantity db =
    if ltb cart_max_qty_per_item (existing.quantity + quantity) then (cart_qty_max, db) else (
      added,
      with_lines
          (update_where (has_line_id existing.id) (grown (existing.quantity + quantity) code)
            db.cart_items)
          db,
    )

-- The line is new.
pub open_line : ℕ → ℕ → Option Text → ℕ → Store → CartReply × Store
open_line user_id item_id code quantity db =
    if leb cart_max_items (count (is_of user_id) db.cart_items) then (cart_full, db) else (
      added,
      record db {
        cart_items = db.cart_items ++ new_line db.next_id user_id code item_id quantity ∷ [];
        next_id = suc db.next_id;
      },
    )

-- `if not item_id`: an id of 0 is falsy.
abbrev pub item_id_of : Text → Store → Option ℕ
item_id_of name db = elim (first (λ g. text_eq g.name name) db.goods) [
  | none ↦ none
  | some g ↦ if g.id == 0 then none else some g.id
]

abbrev pub add_line : ℕ → ℕ → Option CartItem → Option Text → ℕ → Store → CartReply × Store
add_line user_id item_id none code quantity db = open_line user_id item_id code quantity db
add_line user_id item_id (some existing) code quantity db = grow_line existing code quantity db

pub add_to_cart_once : ℕ → Text → Option Text → ℕ → Store → CartReply × Store
add_to_cart_once user_id item_name code quantity db = elim (item_id_of item_name db) [
  | none ↦ (item_not_found, db)
  | some i ↦ add_line user_id i (first (is_line user_id i) db.cart_items) code quantity db
]

-- An attempt commits, or it loses the race for the unique constraint against another transaction,
-- which leaves the lines `winner`.
pub data Race : Type 0 where
  calm : Race
  lost : List CartItem → Race

abbrev pub attempt :
    Race → ℕ → Text → Option Text → ℕ → Store → (Store → CartReply × Store) → CartReply × Store
attempt calm user_id item_name code quantity db retry =
    add_to_cart_once user_id item_name code quantity db
attempt (lost winner) user_id item_name code quantity db retry = retry (with_lines winner db)

-- Two attempts at most.
unfoldable pub add_to_cart : Race → Race → ℕ → Text → Option Text → ℕ → Store → CartReply × Store
add_to_cart first_race second_race user_id item_name code quantity db =
    if ltb quantity 1
    then (invalid_quantity, db)
    else attempt first_race user_id item_name code quantity db (λ db2.
      attempt second_race user_id item_name code quantity db2 (λ db3. (cart_conflict, db3)))

-- What a change of a line that was found answers, with the new quantity.
pub apply_delta : CartItem → ℤ → Store → (CartReply × ℕ) × Store
apply_delta row delta db =
    let new_qty = pos row.quantity +ℤ delta in
    if leb_ℤ new_qty (pos 0)
    then ((removed, 0), with_lines (delete_where (has_line_id row.id) db.cart_items) db)
    else if ltb cart_max_qty_per_item (pos_part new_qty)
    then ((cart_qty_max, row.quantity), db)
    else (
      (changed, pos_part new_qty),
      with_lines
          (update_where (has_line_id row.id) (with_quantity (pos_part new_qty)) db.cart_items) db,
    )

abbrev pub is_own : ℕ → ℕ → CartItem → Bool
is_own cart_item_id user_id ci = ci.id == cart_item_id && ci.user_id == user_id

unfoldable pub set_cart_item_quantity : ℕ → ℕ → ℤ → Store → (CartReply × ℕ) × Store
set_cart_item_quantity cart_item_id user_id delta db =
    elim (first (is_own cart_item_id user_id) db.cart_items) [
      | none ↦ ((item_not_found, 0), db)
      | some row ↦ apply_delta row delta db
    ]

abbrev pub clause : ℕ → Option ℕ → CartItem → Bool
clause cart_item_id none = has_line_id cart_item_id
clause cart_item_id (some user_id) = is_own cart_item_id user_id

unfoldable pub remove_from_cart : ℕ → Option ℕ → Store → Bool × Store
remove_from_cart cart_item_id user_id db = (
  exists (clause cart_item_id user_id) db.cart_items,
  with_lines (delete_where (clause cart_item_id user_id) db.cart_items) db,
)

unfoldable pub clear_cart : ℕ → Store → ℕ × Store
clear_cart user_id db = (
  count (is_of user_id) db.cart_items,
  with_lines (delete_where (is_of user_id) db.cart_items) db,
)

abbrev pub units_of : ℕ → List CartItem → ℕ
units_of user_id [] = 0
units_of user_id (ci ∷ cis) = (if is_of user_id ci then ci.quantity else 0) + units_of user_id cis

unfoldable pub get_cart_count : ℕ → Store → ℕ
get_cart_count user_id db = units_of user_id db.cart_items
