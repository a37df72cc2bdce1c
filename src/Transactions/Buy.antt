-- ===== src/Transactions/Buy.antt =====
-- `buy_item_transaction`: one unit of a product, with a promo code or without.
pub mod Laws
pub mod Delivery
pub mod Success
use telegramshop_zijjn.Prelude.{
  ℕ, zero, suc, ◌+◌, ◌-◌, ◌==◌, ltb, if◌then◌else◌, Bool, true, false, not, ◌&&◌, ◌||◌, Option,
  none, some, List, [], ◌∷◌, ◌++◌, ℤ, pos, ◌-ℤ◌, ltb_ℤ, first, exists, Text, text_eq, codes,
}
use telegramshop_zijjn.Models.{User, Good, ItemValue, BoughtGood, PromoCode, AuditEntry}
use telegramshop_zijjn.Pricing.{effective_price, apply_promo_discount}
use telegramshop_zijjn.Promo.{
  RuleError, not_found, inactive, wrong_type, expired, max_uses, already_used, wrong_item,
  wrong_category, promo_rule_error, find_promo, record_usage,
}
use telegramshop_zijjn.Store.{
  Store, World, Task, user_cache, stats_cache, item_cache, session, log_audit, schedule, Fault,
  Result, ok, err, Failure, abort, integrity, operational, other, Code, user_not_found,
  item_not_found, insufficient_funds, out_of_stock, promo_invalid, promo_expired, promo_max_uses,
  promo_already_used, promo_wrong_item, promo_wrong_category, ◌>>=◌, ◌>>◌, abort_if, or_abort,
}
use telegramshop_zijjn.Transactions.Accounts.{
  Reply, success, failed, transaction_error, find_user, charge,
}
use telegramshop_zijjn.Transactions.Stock.{pick_value, consume}

-- What one attempt meets: the clock, the unique id that it draws, and the database's own errors.
pub record Attempt : Type 0 where
  pub now : ℕ
  pub unique_id : ℕ
  pub fault : Fault

-- `_BUY_PROMO_ERRORS`
pub buy_promo_error : RuleError → Code
buy_promo_error not_found = promo_invalid
buy_promo_error inactive = promo_invalid
buy_promo_error wrong_type = promo_invalid
buy_promo_error expired = promo_expired
buy_promo_error max_uses = promo_max_uses
buy_promo_error already_used = promo_already_used
buy_promo_error wrong_item = promo_wrong_item
buy_promo_error wrong_category = promo_wrong_category

-- The parts of `result_data` that the rows determine.
pub record Purchase : Type 0 where
  pub item_name : Text
  pub value : Option Text
  pub price : ℤ
  pub new_balance : ℤ
  pub unique_id : ℕ
  pub bought_id : ℕ

abbrev pub has_name : Text → Good → Bool
has_name name g = text_eq g.name name

abbrev pub or_empty : Option Text → Text
or_empty none = []
or_empty (some t) = t

abbrev or_rule : Option RuleError → Result (Unit {0})
or_rule none = ok tt
or_rule (some e) = err (abort (buy_promo_error e))

-- The price after the promo code, with its use recorded. An empty code is none.
pub discounted : Attempt → ℕ → Good → ℤ → Option Text → Store → Result (ℤ × Store)
discounted a buyer goods price none db = ok (price, db)
discounted a buyer goods price (some []) db = ok (price, db)
discounted a buyer goods price (some (c ∷ code)) db = do
  or_rule (promo_rule_error db a.now (find_promo (c ∷ code) db) buyer (some goods) false)
  promo ← or_abort (find_promo (c ∷ code) db) promo_invalid
  ok (
    apply_promo_discount price promo.discount_type promo.discount_value 1,
    record_usage promo buyer db,
  )

abbrev pub has_unique_id : ℕ → BoughtGood → Bool
has_unique_id i b = b.unique_id == i

-- `s.add(bought_item)` and the flush, which the unique constraint on `unique_id` may refuse.
unfoldable pub insert_bought : BoughtGood → Store → Result (Store)
insert_bought b db =
    if exists (has_unique_id b.unique_id) db.bought_goods
    then err (integrity true)
    else ok (record db { bought_goods = db.bought_goods ++ b ∷ []; next_id = suc db.next_id })

abbrev pub receipt : Attempt → ℕ → Text → ℤ → ItemValue → Store → BoughtGood
receipt a buyer item_name price v db = record {
  id = db.next_id;
  item_name = item_name;
  value = or_empty v.value;
  price = price;
  buyer_id = some buyer;
  bought_datetime = a.now;
  unique_id = a.unique_id;
  delivery_type = v.delivery_type;
  file_path = v.file_path;
  file_name = v.file_name;
}

-- Steps 3 to 7: the balance, the stock, the payment and the purchase record.
pub sell : Attempt → ℕ → Text → User → Good → ℤ → Store → Result (Purchase × Store)
sell a buyer item_name user goods final db = do
  abort_if (ltb_ℤ user.balance final) insufficient_funds
  v ← or_abort (pick_value goods.id db.item_values) out_of_stock
  let db2 = charge buyer final (record db { item_values = consume v db.item_values })
  db3 ← insert_bought (receipt a buyer item_name final v db2) db2
  ok (
    record {
      item_name = item_name;
      value = v.value;
      price = final;
      new_balance = user.balance -ℤ final;
      unique_id = a.unique_id;
      bought_id = db2.next_id;
    },
    db3,
  )

-- The block of the transaction, between the begin and the commit.
pub buy_block : Attempt → ℕ → Text → Option Text → Store → Result (Purchase × Store)
buy_block a buyer item_name promo_code db = do
  user ← or_abort (find_user buyer db) user_not_found
  goods ← or_abort (first (has_name item_name) db.goods) item_not_found
  let price = (effective_price goods a.now).final
  (final, db1) ← discounted a buyer goods price promo_code db
  sell a buyer item_name user goods final db1

abbrev pub buy_failed : ℕ → Text → AuditEntry
buy_failed buyer item_name = record {
  action = codes "purchase_failed";
  user_id = some buyer;
  resource_id = some item_name;
}

abbrev pub audited : AuditEntry → World → World
audited entry w = record w { store = log_audit entry w.store }

abbrev pub BuyReply : Type 0
BuyReply = Reply Purchase Code × World

abbrev committed : ℕ → Text → Purchase → Store → World → BuyReply
committed buyer item_name purchase db w = (
  success purchase,
  schedule (user_cache buyer ∷ stats_cache ∷ item_cache item_name ∷ []) (record w { store = db }),
)

-- What an attempt's outcome leads to; `again` is the rest of the loop.
pub settle : ℕ → ℕ → Text → Result (Purchase × Store) → BuyReply → World → BuyReply
settle attempt buyer item_name (ok (purchase, db)) again w = committed buyer item_name purchase db w
settle attempt buyer item_name (err (abort code)) again w = (failed code, w)
settle attempt buyer item_name (err (integrity unique_id)) again w =
    if unique_id && ltb attempt 2
    then again
    else (transaction_error, audited (buy_failed buyer item_name) w)
settle attempt buyer item_name (err _) again w =
    (transaction_error, audited (buy_failed buyer item_name) w)

-- The loop over the attempts. `remaining` counts the rounds of `range(max_retries)` that are left.
pub buy_rounds : ℕ → ℕ → (ℕ → Attempt) → ℕ → Text → Option Text → World → BuyReply
buy_rounds zero attempt env buyer item_name promo_code w = (transaction_error, w)
buy_rounds (suc remaining) attempt env buyer item_name promo_code w =
    settle attempt buyer item_name
      (session (env attempt).fault (buy_block (env attempt) buyer item_name promo_code) w.store)
      (buy_rounds remaining (suc attempt) env buyer item_name promo_code w) w

unfoldable pub buy_item_transaction : (ℕ → Attempt) → ℕ → Text → Option Text → World → BuyReply
buy_item_transaction env = buy_rounds 3 0 env
