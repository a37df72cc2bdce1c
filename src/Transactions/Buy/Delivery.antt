-- ===== src/Transactions/Buy/Delivery.antt =====
-- A purchase told by its rows: who pays how much, which row of stock is delivered, and what is recorded.
use telegramshop_zijjn.Prelude.{
  ℕ, ◌≡◌, ◌≢◌, refl, ◌∙◌, ◌⊎◌, some, [], ◌∷◌, ◌++◌, ◌≤ℤ◌, ◌-ℤ◌, first, Text, Option,
}
use telegramshop_zijjn.Models.{User, Good, ItemValue, BoughtGood}
use telegramshop_zijjn.Store.{Store, World, log_audit}
use telegramshop_zijjn.Transactions.Accounts.{
  success, failed, transaction_error, find_user, charge, find_user-charge_self,
  find_user-charge_other,
}
use telegramshop_zijjn.Transactions.Stock.Laws.{IsStock}
use telegramshop_zijjn.Transactions.Stock.Taken.{Taken, consume-Taken}
use telegramshop_zijjn.Transactions.Buy.{
  Attempt, Purchase, has_name, or_empty, buy_failed, BuyReply, buy_item_transaction,
}
use telegramshop_zijjn.Transactions.Buy.Laws.{Bought, BuyOutcome, buy_item_transaction-BuyOutcome}

-- The buyer pays the price, once, from a balance that covers it; one row of the product is delivered;
-- the sale of that row at that price to that buyer is recorded.
pub record Delivered (buyer : ℕ) (item_name : Text) (p : Purchase) (db db' : Store) : Type 0 where
  pub user : User
  pub good : Good
  pub value : ItemValue
  pub sold : BoughtGood
  pub payer : find_user buyer db ≡ some user
  pub ordered : first (has_name item_name) db.goods ≡ some good
  pub affordable : p.price ≤ℤ user.balance
  pub paid : find_user buyer db' ≡ some (record user { balance = user.balance -ℤ p.price })
  pub told : p.new_balance ≡ user.balance -ℤ p.price
  pub unpaid : (i : ℕ) → buyer ≢ i → find_user i db' ≡ find_user i db
  pub delivered : Taken good.id value db.item_values db'.item_values
  pub handed : p.value ≡ value.value
  pub recorded : db'.bought_goods ≡ db.bought_goods ++ sold ∷ []
  pub sold_price : sold.price ≡ p.price
  pub sold_buyer : sold.buyer_id ≡ some buyer
  pub sold_name : sold.item_name ≡ item_name
  pub sold_value : sold.value ≡ or_empty value.value
  pub sold_id : sold.unique_id ≡ p.unique_id

abbrev pub DeliveryOutcome : ℕ → Text → World → BuyReply → Type 0
DeliveryOutcome buyer name w (success p, w') = Delivered buyer name p w.store w'.store
DeliveryOutcome buyer name w (failed code, w') = w' ≡ w
DeliveryOutcome buyer name w (transaction_error, w') =
    (w'.tasks ≡ w.tasks)
    × ((w'.store ≡ w.store) ⊎ (w'.store ≡ log_audit (buy_failed buyer name) w.store))

find_user-cong : (i : ℕ) (db db' : Store) → db'.users ≡ db.users → find_user i db' ≡ find_user i db
find_user-cong i db db' e = rw e refl

Bought-Delivered :
    (buyer : ℕ) (name : Text) (p : Purchase) (db db' : Store)
    → IsStock db.item_values
    → Bought buyer name p db db'
    → Delivered buyer name p db db'
Bought-Delivered buyer name p db db' s b =
    let charged = charge buyer p.price db in
    let sale = b.sale in
    record {
      user = b.user;
      good = b.good;
      value = sale.value;
      sold = sale.sold;
      payer = b.user_found;
      ordered = b.good_found;
      affordable = sale.affordable;
      paid =
          find_user-cong buyer charged db' sale.users
          ∙ find_user-charge_self buyer p.price db b.user_found;
      told = sale.told;
      unpaid = λ i n.
          find_user-cong i charged db' sale.users ∙ find_user-charge_other buyer i p.price db n;
      delivered = rw sale.stock (consume-Taken b.good.id db.item_values s sale.taken);
      handed = sale.handed;
      recorded = sale.sale;
      sold_price = sale.sale_price;
      sold_buyer = sale.sale_buyer;
      sold_name = sale.sale_name;
      sold_value = sale.sale_value;
      sold_id = sale.sale_id;
    }

-- Whatever the database does in the three attempts, a purchase is all or nothing, where the ids of stock
-- rows are unique and no row is empty. On success the buyer's balance, which covers the reported price,
-- falls by it, and no other user's row changes. One row of the product is delivered: the one
-- with the lowest id among the unlimited ones, or among all if none is unlimited. It loses one unit and goes when it held the last,
-- an unlimited row stays, and every other row stays as it was. One sale of that row's value at that
-- price to the buyer is recorded. A code that was raised leaves everything as it was;
-- "transaction_error" adds at most one audit entry.
pub buy_item_transaction-DeliveryOutcome :
    (env : ℕ → Attempt) (buyer : ℕ) (name : Text) (code : Option Text) (w : World)
    → IsStock w.store.item_values
    → DeliveryOutcome buyer name w (buy_item_transaction env buyer name code w)
buy_item_transaction-DeliveryOutcome env buyer name code w s =
    go _ (buy_item_transaction-BuyOutcome env buyer name code w)
  where
    go : (r : BuyReply) → BuyOutcome buyer name w r → DeliveryOutcome buyer name w r
    go (success p, w') b = Bought-Delivered buyer name p w.store w'.store s b
    go (failed c, w') b = b
    go (transaction_error, w') b = b
