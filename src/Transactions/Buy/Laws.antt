-- ===== src/Transactions/Buy/Laws.antt =====
-- What a purchase does: the price leaves the buyer's balance, one row is sold, and a failure leaves
-- no trace but an audit entry.
use telegramshop_zijjn.Prelude.{
  ℕ, zero, suc, ltb, ◌≡◌, refl, ◌⊎◌, inl, inr, true, false, Option, none, some, [], ◌∷◌, ◌++◌, ℤ,
  ◌≤ℤ◌, ◌-ℤ◌, first, Text, arith, Bool-cases, Option-cases,
}
use telegramshop_zijjn.Models.{User, Good, ItemValue, BoughtGood}
use telegramshop_zijjn.Pricing.{effective_price}
use telegramshop_zijjn.Promo.{record_usage}
use telegramshop_zijjn.Store.{
  Store, World, log_audit, schedule, Result, ok, err, abort, integrity, operational, other,
  Result-cases,
}
use telegramshop_zijjn.Store.Commit.{session-eq-ok}
use telegramshop_zijjn.Transactions.Accounts.{success, failed, transaction_error, find_user, charge}
use telegramshop_zijjn.Transactions.Stock.{pick_value, consume}
use telegramshop_zijjn.Transactions.Buy.{
  Attempt, Purchase, has_name, or_empty, discounted, insert_bought, receipt, buy_block, sell,
  buy_failed, settle, buy_rounds, buy_item_transaction, BuyReply,
}

-- Recording a promo touches neither users, nor stock, nor sales.
discounted_keeps :
    (a : Attempt) (buyer : ℕ) (g : Good) (price : ℤ) (code : Option Text) (db : Store)
    {r : ℤ × Store}
    → discounted a buyer g price code db ≡ ok r
    → (r.1.users ≡ db.users)
      × (r.1.item_values ≡ db.item_values)
      × (r.1.bought_goods ≡ db.bought_goods)
unfolding discounted record_usage
discounted_keeps a buyer g price none db h = ground arith
discounted_keeps a buyer g price (some []) db h = ground arith
discounted_keeps a buyer g price (some (c ∷ code)) db {r} h = ground arith

-- What a sale does to the rows that it finds.
pub record Sold (buyer : ℕ) (name : Text) (user : User) (good : Good) (p : Purchase)
    (db db' : Store) : Type 0 where
  pub value : ItemValue
  pub sold : BoughtGood
  pub affordable : p.price ≤ℤ user.balance
  pub users : db'.users ≡ (charge buyer p.price db).users
  pub taken : pick_value good.id db.item_values ≡ some value
  pub stock : db'.item_values ≡ consume value db.item_values
  pub sale : db'.bought_goods ≡ db.bought_goods ++ sold ∷ []
  pub sale_price : sold.price ≡ p.price
  pub sale_buyer : sold.buyer_id ≡ some buyer
  pub sale_name : sold.item_name ≡ name
  pub sale_value : sold.value ≡ or_empty value.value
  pub sale_id : sold.unique_id ≡ p.unique_id
  pub told : p.new_balance ≡ user.balance -ℤ p.price
  pub handed : p.value ≡ value.value

sell-Sold :
    (a : Attempt) (buyer : ℕ) (name : Text) (user : User) (good : Good) (final : ℤ) (db : Store)
    {p : Purchase} {db' : Store}
    → sell a buyer name user good final db ≡ ok (p, db')
    → Sold buyer name user good p db db'
unfolding sell insert_bought charge
sell-Sold a buyer name user good final db {p} {db'} h =
    elim (Option-cases (pick_value good.id db.item_values)) [
      | inl e ↦ absurd (ground arith)
      | inr (v, e) ↦ record {
        value = v;
        sold = receipt a buyer name final v db;
        affordable = ground arith;
        users = ground arith;
        taken = e;
        stock = ground arith;
        sale = ground arith;
        sale_price = ground arith;
        sale_buyer = refl;
        sale_name = refl;
        sale_value = refl;
        sale_id = ground arith;
        told = ground arith;
        handed = ground arith;
      }
    ]

-- The sale reads and writes only what the promo code left alone.
Sold-transport :
    {buyer : ℕ} {name : Text} {user : User} {good : Good} {p : Purchase} {db1 db' : Store}
    (db : Store)
    → (db1.users ≡ db.users)
      × (db1.item_values ≡ db.item_values)
      × (db1.bought_goods ≡ db.bought_goods)
    → Sold buyer name user good p db1 db'
    → Sold buyer name user good p db db'
unfolding charge
Sold-transport db (eu, ei, eb) s = record {
  value = s.value;
  sold = s.sold;
  affordable = s.affordable;
  users = rw (← eu) s.users;
  taken = rw (← ei) s.taken;
  stock = rw (← ei) s.stock;
  sale = rw (← eb) s.sale;
  sale_price = s.sale_price;
  sale_buyer = s.sale_buyer;
  sale_name = s.sale_name;
  sale_value = s.sale_value;
  sale_id = s.sale_id;
  told = s.told;
  handed = s.handed;
}

-- A purchase: the user and the product that the block finds, and the sale.
pub record Bought (buyer : ℕ) (item_name : Text) (p : Purchase) (db db' : Store) : Type 0 where
  pub user : User
  pub good : Good
  pub user_found : find_user buyer db ≡ some user
  pub good_found : first (has_name item_name) db.goods ≡ some good
  pub sale : Sold buyer item_name user good p db db'

buy_block-Bought :
    (a : Attempt) (buyer : ℕ) (name : Text) (code : Option Text) (db : Store) {p : Purchase}
    {db' : Store}
    → buy_block a buyer name code db ≡ ok (p, db')
    → Bought buyer name p db db'
unfolding buy_block
buy_block-Bought a buyer name code db {p} {db'} h = elim (Option-cases (find_user buyer db)) [
  | inl e ↦ absurd (ground arith)
  | inr (u, eu) ↦ elim (Option-cases (first (has_name name) db.goods)) [
    | inl e ↦ absurd (ground arith)
    | inr (g, eg) ↦
        elim (Result-cases (discounted a buyer g (effective_price g a.now).final code db)) [
          | inl (f, e) ↦ absurd (ground arith)
          | inr (r, e) ↦ record {
            user = u;
            good = g;
            user_found = eu;
            good_found = eg;
            sale =
                Sold-transport db (discounted_keeps a buyer g _ code db e)
                  (sell-Sold a buyer name u g r.0 r.1 (ground arith));
          }
        ]
  ]
]

-- What the loop answers, whichever attempt decides it: a committed purchase, or a failure that leaves
-- the database as it was but for an audit entry.
abbrev pub BuyOutcome : ℕ → Text → World → BuyReply → Type 0
BuyOutcome buyer name w (success p, w') = Bought buyer name p w.store w'.store
BuyOutcome buyer name w (failed code, w') = w' ≡ w
BuyOutcome buyer name w (transaction_error, w') =
    (w'.tasks ≡ w.tasks)
    × ((w'.store ≡ w.store) ⊎ (w'.store ≡ log_audit (buy_failed buyer name) w.store))

settle-BuyOutcome :
    (attempt buyer : ℕ) (name : Text) (r : Result (Purchase × Store)) (again : BuyReply) (w : World)
    → ((p : Purchase) (db' : Store) → r ≡ ok (p, db') → Bought buyer name p w.store db')
    → BuyOutcome buyer name w again
    → BuyOutcome buyer name w (settle attempt buyer name r again w)
unfolding settle schedule
settle-BuyOutcome attempt buyer name (ok (p, db')) again w h k = h p db' refl
settle-BuyOutcome attempt buyer name (err (abort code)) again w h k = refl
settle-BuyOutcome attempt buyer name (err (integrity true)) again w h k =
    elim (Bool-cases (ltb attempt 2)) [ inl e ↦ rw e k | inr e ↦ rw e (refl, inr refl) ]
settle-BuyOutcome attempt buyer name (err (integrity false)) again w h k = (refl, inr refl)
settle-BuyOutcome attempt buyer name (err (operational t)) again w h k = (refl, inr refl)
settle-BuyOutcome attempt buyer name (err other) again w h k = (refl, inr refl)

buy_rounds-BuyOutcome :
    (remaining attempt : ℕ) (env : ℕ → Attempt) (buyer : ℕ) (name : Text) (code : Option Text)
    (w : World)
    → BuyOutcome buyer name w (buy_rounds remaining attempt env buyer name code w)
unfolding buy_rounds
buy_rounds-BuyOutcome zero attempt env buyer name code w = (refl, inl refl)
buy_rounds-BuyOutcome (suc n) attempt env buyer name code w =
    settle-BuyOutcome attempt buyer name _ _ w
      (λ p db' e.
        buy_block-Bought (env attempt) buyer name code w.store
          (session-eq-ok (env attempt).fault _ w.store e))
      (buy_rounds-BuyOutcome n (suc attempt) env buyer name code w)

-- Whatever the database does in the three attempts, a purchase is all or nothing. On success the
-- buyer's row is charged the reported price, which the balance covers, no other row of a user changes,
-- the first stock row in the order of delivery is consumed and one sale at that price is recorded. A
-- code that was raised leaves everything as it was; "transaction_error" adds at most one audit entry.
pub buy_item_transaction-BuyOutcome :
    (env : ℕ → Attempt) (buyer : ℕ) (name : Text) (code : Option Text) (w : World)
    → BuyOutcome buyer name w (buy_item_transaction env buyer name code w)
unfolding buy_item_transaction
buy_item_transaction-BuyOutcome env = buy_rounds-BuyOutcome 3 0 env
