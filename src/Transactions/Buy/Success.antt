-- ===== src/Transactions/Buy/Success.antt =====
-- A purchase that nothing stands against succeeds.
use telegramshop_zijjn.Prelude.{
  ℕ, ◌≡◌, refl, arith, none, some, ℤ, ◌≤ℤ◌, first, exists, false, true, Text, inl, inr,
}
use telegramshop_zijjn.Models.{User, Good, ItemValue}
use telegramshop_zijjn.Pricing.{effective_price}
use telegramshop_zijjn.Store.{Store, World, session, Fault, calm, Result, ok, Result-cases}
use telegramshop_zijjn.Transactions.Accounts.{is_success, find_user, charge}
use telegramshop_zijjn.Transactions.Stock.{pick_value}
use telegramshop_zijjn.Transactions.Buy.{
  Attempt, Purchase, has_name, has_unique_id, discounted, insert_bought, sell, buy_block, settle,
  buy_rounds, buy_item_transaction,
}

sell-ok :
    (a : Attempt) (buyer : ℕ) (name : Text) (u : User) (g : Good) (final : ℤ) (db : Store)
    {v : ItemValue}
    → pick_value g.id db.item_values ≡ some v
    → final ≤ℤ u.balance
    → exists (has_unique_id a.unique_id) db.bought_goods ≡ false
    → (x : Purchase × Store) × (sell a buyer name u g final db ≡ ok x)
unfolding sell insert_bought charge
sell-ok a buyer name u g final db e h n = elim (Result-cases (sell a buyer name u g final db)) [
  | inl (f, k) ↦ absurd (ground arith)
  | inr (x, k) ↦ (x, k)
]

buy_block-ok :
    (a : Attempt) (buyer : ℕ) (name : Text) (db : Store) {u : User} {g : Good} {v : ItemValue}
    → find_user buyer db ≡ some u
    → first (has_name name) db.goods ≡ some g
    → pick_value g.id db.item_values ≡ some v
    → (effective_price g a.now).final ≤ℤ u.balance
    → exists (has_unique_id a.unique_id) db.bought_goods ≡ false
    → (x : Purchase × Store) × (buy_block a buyer name none db ≡ ok x)
unfolding buy_block discounted
buy_block-ok a buyer name db {u} {g} eu eg ev h n =
    let (x, k) = sell-ok a buyer name u g (effective_price g a.now).final db ev h n in
    (x, ground arith)

session_calm :
    {A : Type 0} {f : Fault} (body : Store → Result (A × Store)) (db : Store)
    → f ≡ calm
    → session f body db ≡ body db
unfolding session
session_calm body db c = rw c refl

-- A purchase without a promo code, whose first attempt the database does not disturb, succeeds when
-- the user and the product exist, the balance covers the price at that time, a stock row is left, and
-- the unique id that was drawn is new.
pub buy_item_transaction-succeeds :
    (env : ℕ → Attempt) (buyer : ℕ) (name : Text) (w : World) (u : User) (g : Good) (v : ItemValue)
    → (env 0).fault ≡ calm
    → find_user buyer w.store ≡ some u
    → first (has_name name) w.store.goods ≡ some g
    → pick_value g.id w.store.item_values ≡ some v
    → (effective_price g (env 0).now).final ≤ℤ u.balance
    → exists (has_unique_id (env 0).unique_id) w.store.bought_goods ≡ false
    → is_success (buy_item_transaction env buyer name none w).0 ≡ true
unfolding buy_item_transaction buy_rounds settle session buy_block discounted sell
buy_item_transaction-succeeds env buyer name w u g v c eu eg ev h n =
    let (x, k) = buy_block-ok (env 0) buyer name w.store eu eg ev h n in rw (c, k) refl
