-- ===== src/Transactions/Checkout.antt =====
-- `checkout_cart_transaction`: the whole cart of a user in one transaction. Checkout.Resolve prices
-- the lines; here they are delivered, charged and retried.
pub mod Resolve
pub mod Laws
pub mod Outcomes
use telegramshop_zijjn.Prelude.{
  ℕ, zero, suc, ◌+◌, ltb, if◌then◌else◌, Bool, true, false, not, ◌&&◌, ◌||◌, Option, none, some,
  List, [], ◌∷◌, ◌++◌, ℤ, ltb_ℤ, Text, codes, select_where, delete_where, update_where, exists,
  length, ◌==◌, text_eq,
}
use telegramshop_zijjn.Models.{ItemValue, BoughtGood, CartItem, PromoCode, AuditEntry, Good}
use telegramshop_zijjn.Promo.{record_usage}
use telegramshop_zijjn.Store.{
  Store, World, Task, user_cache, stats_cache, item_cache, session, log_audit, schedule, Fault,
  Result, ok, err, Failure, abort, integrity, operational, other, Code, user_not_found, cart_empty,
  insufficient_funds, price_changed, ◌>>=◌, ◌>>◌, abort_if, or_abort,
}
use telegramshop_zijjn.Transactions.Accounts.{
  Reply, success, failed, transaction_error, find_user, charge,
}
use telegramshop_zijjn.Transactions.Stock.{has_value_id}
use telegramshop_zijjn.Transactions.Fulfil.{Delivery}
use telegramshop_zijjn.Transactions.Buy.{insert_bought}
use telegramshop_zijjn.Transactions.Checkout.Resolve.{
  Line, Progress, start, resolve_lines, is_line_of, eq_ℤ,
}

-- What one attempt meets: the clock, the unique ids that it draws, and the database's own errors.
pub record Round : Type 0 where
  pub now : ℕ
  pub unique_ids : ℕ → ℕ
  pub fault : Fault

-- An entry of `results`: the row that was written, and the template of its product.
pub record Delivered : Type 0 where
  pub row : BoughtGood
  pub delivery_template : Option Text

abbrev pub sale_row : Round → ℕ → Good → Delivery → ℤ → ℕ → Store → BoughtGood
sale_row r user_id goods d price n db = record {
  id = db.next_id;
  item_name = goods.name;
  value = d.value;
  price = price;
  buyer_id = some user_id;
  bought_datetime = r.now;
  unique_id = r.unique_ids n;
  delivery_type = d.delivery_type;
  file_path = d.file_path;
  file_name = d.file_name;
}

abbrev pub prepend : Delivered → List Delivered × Store → List Delivered × Store
prepend d (ds, db) = (d ∷ ds, db)

-- `for delivery, unit_price in zip(...)`; n counts the ids drawn before.
pub deliver_units :
    Round → ℕ → Good → List Delivery → List ℤ → ℕ → Store → Result (List Delivered × Store)
deliver_units r user_id goods [] prices n db = ok ([], db)
deliver_units r user_id goods (d ∷ ds) [] n db = ok ([], db)
deliver_units r user_id goods (d ∷ ds) (price ∷ prices) n db = do
  db2 ← insert_bought (sale_row r user_id goods d price n db) db
  (rest, db3) ← deliver_units r user_id goods ds prices (suc n) db2
  ok (
    record {
      row = sale_row r user_id goods d price n db;
      delivery_template = goods.delivery_template;
    }
        ∷ rest,
    db3,
  )

-- `for v in p['values_to_delete']: await s.delete(v)`
abbrev pub delete_values : List ItemValue → Store → Store
delete_values [] db = db
delete_values (v ∷ vs) db =
    delete_values vs (record db { item_values = delete_where (has_value_id v.id) db.item_values })

pub deliver_lines : Round → ℕ → List Line → ℕ → Store → Result (List Delivered × Store)
deliver_lines r user_id [] n db = ok ([], db)
deliver_lines r user_id (p ∷ ps) n db = do
  (units, db2) ←
      deliver_units r user_id p.goods p.deliveries p.unit_prices n
        (delete_values p.values_to_delete db)
  (rest, db3) ← deliver_lines r user_id ps (n + length units) db2
  ok (units ++ rest, db3)

-- `for promo in promos_to_record.values()`
pub record_promos : ℕ → List PromoCode → Store → Store
record_promos user_id [] db = db
record_promos user_id (p ∷ ps) db = record_promos user_id ps (record_usage p user_id db)

-- How the block ends without an exception.
pub data Outcome : Type 0 where
  bought : List Delivered → Outcome
  cart_items_unavailable : Outcome

-- `sa_delete(CartItems).where(CartItems.user_id == user_id)`
pub clear_lines : ℕ → Store → Store
clear_lines user_id db = record db { cart_items = delete_where (is_line_of user_id) db.cart_items }

-- `sa_delete(CartItems).where(CartItems.id.in_(items_to_remove))`
abbrev pub remove_lines : List ℕ → Store → Store
remove_lines ids db = record db {
  cart_items = delete_where (λ ci. exists (λ i. i == ci.id) ids) db.cart_items;
}

-- `expected_total is not None and total_price != expected_total`
abbrev pub is_changed : Option ℤ → ℤ → Bool
is_changed none total = false
is_changed (some expected) total = not (eq_ℤ total expected)

-- The guards, and steps 5 to 8.
pub purchase_lines :
    Round → ℕ → Option ℤ → ℤ → List Line → ℤ → List PromoCode → Store → Result (Outcome × Store)
purchase_lines r user_id expected funds lines total promos db = do
  abort_if (is_changed expected total) price_changed
  abort_if (ltb_ℤ funds total) insufficient_funds
  (results, db2) ← deliver_lines r user_id lines 0 db
  ok (bought results, clear_lines user_id (charge user_id total (record_promos user_id promos db2)))

-- A cart with nothing to buy commits its clean-up only.
pub conclude_lines :
    Round → ℕ → Option ℤ → ℤ → List Line → ℤ → List PromoCode → Store → Result (Outcome × Store)
conclude_lines r user_id expected funds [] total promos db = ok (cart_items_unavailable, db)
conclude_lines r user_id expected funds (l ∷ ls) total promos db =
    purchase_lines r user_id expected funds (l ∷ ls) total promos db

abbrev pub cart_of : ℕ → Store → List CartItem
cart_of user_id db = select_where (is_line_of user_id) db.cart_items

abbrev is_nil : List CartItem → Bool
is_nil [] = true
is_nil (ci ∷ cis) = false

-- The block of the transaction.
pub checkout_block : Round → ℕ → Option ℤ → Store → Result (Outcome × Store)
checkout_block r user_id expected db = do
  user ← or_abort (find_user user_id db) user_not_found
  abort_if (is_nil (cart_of user_id db)) cart_empty
  progress ← resolve_lines r.now user_id (cart_of user_id db) (start db)
  conclude_lines r user_id expected user.balance progress.purchases progress.total_price
      progress.promos_to_record (remove_lines progress.items_to_remove progress.db)

-- `{r["item_name"] for r in results}`, one task for each name.
abbrev pub name_tasks : List Delivered → List Task
name_tasks [] = []
name_tasks (d ∷ ds) =
    if exists (λ e. text_eq e.row.item_name d.row.item_name) ds
    then name_tasks ds
    else item_cache d.row.item_name ∷ name_tasks ds

abbrev pub checkout_failed : ℕ → AuditEntry
checkout_failed user_id = record {
  action = codes "cart_checkout_failed";
  user_id = some user_id;
  resource_id = none;
}

-- What the function returns: the results, or a code, where `unavailable` is "cart_items_unavailable".
pub data Refusal : Type 0 where
  raised : Code → Refusal
  unavailable : Refusal

abbrev pub CheckoutReply : Type 0
CheckoutReply = Reply (List Delivered) Refusal × World

abbrev pub retry_if : Bool → ℕ → CheckoutReply → World → CheckoutReply
retry_if b user_id again w =
    if b
    then again
    else (transaction_error, record w { store = log_audit (checkout_failed user_id) w.store })

-- What an attempt's outcome leads to; `again` is the rest of the loop.
pub settle_checkout : ℕ → ℕ → Result (Outcome × Store) → CheckoutReply → World → CheckoutReply
settle_checkout attempt user_id (ok (bought results, db)) again w = (
  success results,
  schedule (user_cache user_id ∷ stats_cache ∷ name_tasks results) (record w { store = db }),
)
settle_checkout attempt user_id (ok (cart_items_unavailable, db)) again w =
    (failed unavailable, record w { store = db })
settle_checkout attempt user_id (err (abort code)) again w = (failed (raised code), w)
settle_checkout attempt user_id (err (integrity unique_id)) again w =
    retry_if (unique_id && ltb attempt 2) user_id again w
settle_checkout attempt user_id (err (operational transient)) again w =
    retry_if (transient && ltb attempt 2) user_id again w
settle_checkout attempt user_id (err other) again w = retry_if false user_id again w

pub checkout_rounds : ℕ → ℕ → (ℕ → Round) → ℕ → Option ℤ → World → CheckoutReply
checkout_rounds zero attempt env user_id expected w = (transaction_error, w)
checkout_rounds (suc remaining) attempt env user_id expected w =
    settle_checkout attempt user_id
      (session (env attempt).fault (checkout_block (env attempt) user_id expected) w.store)
      (checkout_rounds remaining (suc attempt) env user_id expected w) w

unfoldable pub checkout_cart_transaction : (ℕ → Round) → ℕ → Option ℤ → World → CheckoutReply
checkout_cart_transaction env = checkout_rounds 3 0 env
