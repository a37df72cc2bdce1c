-- ===== src/Catalog/Waiting.antt =====
-- The waiting list for a restock: `subscribe_to_stock` (create.py), `unsubscribe_from_stock` and
-- `pop_stock_subscribers` (delete.py).
pub mod Abstract
pub mod Refinement
use telegramshop_zijjn.Prelude.{
  ℕ, suc, ◌+◌, ◌==◌, ◌≤◌, ◌≡◌, refl, sym, subst, ap, ◌∙◌, arith, if◌then◌else◌, ltb, Bool, true,
  false, not, ◌&&◌, ◌||◌, Option, none, some, List, [], ◌∷◌, ◌++◌, Text, text_eq, first, exists,
  count, map, In, select_where, delete_where, Bool-cases, Option-cases, inl, inr,
}
use telegramshop_zijjn.Prelude.Rows.{exists-append}
use telegramshop_zijjn.Prelude.Counts.{count-append}
use telegramshop_zijjn.Models.{Good, StockSubscription}
use telegramshop_zijjn.Store.{Store}
use telegramshop_zijjn.Catalog.{has_id, has_good_name, good_named}
use telegramshop_zijjn.Catalog.Integrity.{IsCatalog}

pub data SubscribeReply : Type 0 where
  item_not_found already_subscribed subscribed : SubscribeReply

abbrev pub waits : ℕ → ℕ → StockSubscription → Bool
waits user_id item_id s = s.user_id == user_id && s.item_id == item_id

abbrev pub is_for : ℕ → StockSubscription → Bool
is_for item_id s = s.item_id == item_id

pub insert_waiting : ℕ → Option Good → Store → SubscribeReply × Store
insert_waiting user_id none db = (item_not_found, db)
insert_waiting user_id (some g) db =
    if exists (waits user_id g.id) db.stock_subscriptions then (already_subscribed, db) else (
      subscribed,
      record db {
        stock_subscriptions =
            db.stock_subscriptions
            ++ record { id = db.next_id; user_id = user_id; item_id = g.id } ∷ [];
        next_id = suc db.next_id;
      },
    )

unfoldable pub subscribe_to_stock : ℕ → Text → Store → SubscribeReply × Store
subscribe_to_stock user_id item_name db = insert_waiting user_id (good_named item_name db) db

pub drop_waiting : ℕ → Option Good → Store → Bool × Store
drop_waiting user_id none db = (false, db)
drop_waiting user_id (some g) db = (
  ltb 0 (count (waits user_id g.id) db.stock_subscriptions),
  record db { stock_subscriptions = delete_where (waits user_id g.id) db.stock_subscriptions },
)

unfoldable pub unsubscribe_from_stock : ℕ → Text → Store → Bool × Store
unsubscribe_from_stock user_id item_name db = drop_waiting user_id (good_named item_name db) db

abbrev pub user_of : StockSubscription → ℕ
user_of s = s.user_id

-- The row's id is among those that were selected.
abbrev pub among : List StockSubscription → StockSubscription → Bool
among rows s = exists (λ r. r.id == s.id) rows

pub claim_waiting : Option Good → Store → List ℕ × Store
claim_waiting none db = ([], db)
claim_waiting (some g) db =
    let rows = select_where (is_for g.id) db.stock_subscriptions in
    (
      map user_of rows,
      record db { stock_subscriptions = delete_where (among rows) db.stock_subscriptions },
    )

unfoldable pub pop_stock_subscribers : Text → Store → List ℕ × Store
pop_stock_subscribers item_name db = claim_waiting (good_named item_name db) db

-- Who waits for what.
pub waiting : Store → ℕ → ℕ → Bool
waiting db user_id item_id = exists (waits user_id item_id) db.stock_subscriptions
