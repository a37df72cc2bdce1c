-- ===== src/Transactions/Fulfil.antt =====
-- The stock of one cart line in `checkout_cart_transaction`: one unlimited row serves any quantity,
-- else limited rows are claimed in the order of their ids until the quantity is met.
pub mod Laws
use telegramshop_zijjn.Prelude.{
  ℕ, zero, suc, ◌-◌, ◌==◌, ltb, min, if◌then◌else◌, Bool, not, ◌&&◌, Option, none, some, List, [],
  ◌∷◌, ◌++◌, Text, first, select_where, update_where, take, replicate,
}
use telegramshop_zijjn.Models.{ItemValue}
use telegramshop_zijjn.Store.{Result, ok, err, abort, out_of_stock}
use telegramshop_zijjn.Transactions.Stock.{is_stock_of, has_value_id}

-- What one unit delivers.
pub record Delivery : Type 0 where
  pub value : Text
  pub delivery_type : Text
  pub file_path : Option Text
  pub file_name : Option Text

abbrev pub or_empty : Option Text → Text
or_empty none = []
or_empty (some t) = t

abbrev pub delivery_of : ItemValue → Delivery
delivery_of v = record {
  value = or_empty v.value;
  delivery_type = v.delivery_type;
  file_path = v.file_path;
  file_name = v.file_name;
}

-- `deliveries` and `values_to_delete`, with what is still `remaining` and the table as it stands:
-- the rows that end empty are deleted later, after the balance was checked.
pub record Claim : Type 0 where
  pub remaining : ℕ
  pub deliveries : List Delivery
  pub values_to_delete : List ItemValue
  pub item_values : List ItemValue

abbrev pub take_from : ℕ → ItemValue → ItemValue
take_from taken v = record v { quantity = v.quantity - taken }

-- `row.quantity -= taken`, unless the row ends empty.
abbrev pub reduce : ItemValue → ℕ → List ItemValue → List ItemValue
reduce row taken rows =
    if row.quantity == taken
    then rows
    else update_where (has_value_id row.id) (take_from taken) rows

abbrev pub emptied : ItemValue → ℕ → List ItemValue
emptied row taken = if row.quantity == taken then row ∷ [] else []

abbrev pub claimed : ℕ → List ItemValue → Claim
claimed remaining values = record {
  remaining = remaining;
  deliveries = [];
  values_to_delete = [];
  item_values = values;
}

abbrev pub with_row : ItemValue → ℕ → Claim → Claim
with_row row taken rest = record rest {
  deliveries = replicate taken (delivery_of row) ++ rest.deliveries;
  values_to_delete = emptied row taken ++ rest.values_to_delete;
}

-- The loop over the rows, which stops when nothing remains.
unfoldable pub claim_rows : ℕ → List ItemValue → List ItemValue → Claim
claim_rows remaining [] values = claimed remaining values
claim_rows remaining (row ∷ rows) values =
    let taken = min row.quantity remaining in
    let values2 = reduce row taken values in
    let rest = claim_rows (remaining - taken) rows values2 in
    with_row row taken (if remaining - taken == 0 then claimed 0 values2 else rest)

abbrev pub insert_by_id : ItemValue → List ItemValue → List ItemValue
insert_by_id v [] = v ∷ []
insert_by_id v (w ∷ ws) = if ltb w.id v.id then w ∷ insert_by_id v ws else v ∷ w ∷ ws

-- `ORDER BY id`
unfoldable pub by_id : List ItemValue → List ItemValue
by_id [] = []
by_id (v ∷ vs) = insert_by_id v (by_id vs)

-- The limited rows that the query finds: at most `quantity` of them.
unfoldable pub rows_for : ℕ → ℕ → List ItemValue → List ItemValue
rows_for item_id quantity values = take quantity (by_id (select_where (is_stock_of item_id) values))

-- `if remaining: raise _Abort("out_of_stock")`
abbrev pub complete : Claim → Result (Option Claim)
complete c = if c.remaining == 0 then ok (some c) else err (abort out_of_stock)

abbrev pub claim_limited : ℕ → List ItemValue → List ItemValue → Result (Option Claim)
claim_limited quantity [] values = ok none
claim_limited quantity (r ∷ rows) values = complete (claim_rows quantity (r ∷ rows) values)

abbrev pub is_infinite_of : ℕ → ItemValue → Bool
is_infinite_of item_id v = is_stock_of item_id v && v.is_infinity

-- None when there is no stock at all, which drops the line from the cart.
unfoldable pub fulfil : ℕ → ℕ → List ItemValue → Result (Option Claim)
fulfil item_id quantity values = elim (first (is_infinite_of item_id) values) [
  | some v ↦ ok (
      some record {
        remaining = 0;
        deliveries = replicate quantity (delivery_of v);
        values_to_delete = [];
        item_values = values;
      })
  | none ↦ claim_limited quantity (rows_for item_id quantity values) values
]
