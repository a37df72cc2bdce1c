-- ===== src/Transactions/Stock.antt =====
-- The stock rows of a product: which row a purchase takes, and how it is consumed.
pub mod Laws
pub mod Taken
use telegramshop_zijjn.Prelude.{
  ℕ, zero, suc, ◌+◌, ◌-◌, ◌==◌, ltb, if◌then◌else◌, Bool, true, false, not, ◌&&◌, ◌||◌, Option,
  none, some, List, [], ◌∷◌, select_where, update_where, delete_where,
}
use telegramshop_zijjn.Models.{ItemValue}

abbrev pub is_stock_of : ℕ → ItemValue → Bool
is_stock_of item_id v = v.item_id == item_id

abbrev pub has_value_id : ℕ → ItemValue → Bool
has_value_id i v = v.id == i

-- `order_by(is_infinity.desc(), id)`
abbrev pub before : ItemValue → ItemValue → Bool
before v w =
    if v.is_infinity then not w.is_infinity || ltb v.id w.id else not w.is_infinity && ltb v.id w.id

abbrev pub better : ItemValue → Option ItemValue → Option ItemValue
better v none = some v
better v (some w) = if before w v then some w else some v

unfoldable pub least : List ItemValue → Option ItemValue
least [] = none
least (v ∷ vs) = better v (least vs)

-- The first row in that order among the rows of the product.
unfoldable pub pick_value : ℕ → List ItemValue → Option ItemValue
pick_value item_id rows = least (select_where (is_stock_of item_id) rows)

abbrev pub one_less : ItemValue → ItemValue
one_less v = record v { quantity = v.quantity - 1 }

-- One unit of finite stock: the row goes when it held the last one.
unfoldable pub consume : ItemValue → List ItemValue → List ItemValue
consume v rows =
    if v.is_infinity
    then rows
    else if ltb 1 v.quantity
    then update_where (has_value_id v.id) one_less rows
    else delete_where (has_value_id v.id) rows

-- The units in stock, as `select_item_values_amount` counts them.
pub units : ℕ → List ItemValue → ℕ
units item_id [] = 0
units item_id (v ∷ vs) = (if is_stock_of item_id v then v.quantity else 0) + units item_id vs
