-- ===== src/Gacha/Spin.antt =====
-- What a spin does to the user, the prizes and the wins.
use telegramshop_zijjn.Prelude.{
  ℕ, ◌≡◌, ◌≢◌, refl, sym, ap, subst, ◌∙◌, true, Option, none, some, [], ◌∷◌, ◌++◌, ℤ, pos, ◌-ℤ◌,
  ◌+ℤ◌, ◌≤ℤ◌, int_laws, arith, codes, first, In, update_where,
}
use telegramshop_zijjn.Models.{User, Good, ItemValue, BoughtGood, PromoCode}
use telegramshop_zijjn.Store.{Store, Result, ok, err, ◌>>=◌}
use telegramshop_zijjn.Transactions.Accounts.{
  find_user, has_telegram_id, credit, charge, deposit, withdraw, find_user-credit_self,
  find_user-credit_other, find_user-charge_self, find_user-charge_other,
}
use telegramshop_zijjn.Transactions.Adjust.{add_operation}
use telegramshop_zijjn.Transactions.Buy.{insert_bought}
use telegramshop_zijjn.Transactions.Stock.{consume}
use telegramshop_zijjn.Gacha.{
  ItemType, balance_reward, promo_code, goods_item, text_gift, no_prize, other_type, GachaItem,
  GachaSettings, RewardDetail, GachaStore, Draw, SpinReply, refused, won, or_text, parse_decimal,
  whole, in_pool, selected, has_gacha_id, drawn_once, insert_promo, gacha_promo, prize,
  deliver_value, deliver_good, good_of, fulfil_prize, win, first_of,
}

-- The money of a prize.
abbrev pub reward_of : Draw → GachaItem → ItemType → ℤ
reward_of d x balance_reward = parse_decimal d.to_decimal x.reward_value (pos 1000000)
reward_of d x promo_code = pos 0
reward_of d x goods_item = pos 0
reward_of d x text_gift = pos 0
reward_of d x no_prize = pos 0
reward_of d x other_type = pos 0

-- The user has paid the price and has the reward, and no one else's row is touched.
pub record Paid (user_id : ℕ) (price reward : ℤ) (before after : Store) : Type 0 where
  pub user : User
  pub user_found : find_user user_id before ≡ some user
  pub affordable : price ≤ℤ user.balance
  pub user_after : User
  pub found_after : find_user user_id after ≡ some user_after
  pub balance : user_after.balance ≡ (user.balance -ℤ price) +ℤ reward
  pub others : (k : ℕ) → k ≢ user_id → find_user k after ≡ find_user k before

insert_promo-users :
    (p : PromoCode) (db db2 : Store) → insert_promo p db ≡ ok db2 → db2.users ≡ db.users
unfolding insert_promo
insert_promo-users p db db2 h = ground arith

insert_bought-users :
    (b : BoughtGood) (db db2 : Store) → insert_bought b db ≡ ok db2 → db2.users ≡ db.users
unfolding insert_bought
insert_bought-users b db db2 h = ground arith

-- The row of one user gains an amount.
record Gains (user_id : ℕ) (a : ℤ) (v : User) (before after : Store) : Type 0 where
  user_after : User
  found_after : find_user user_id after ≡ some user_after
  balance : user_after.balance ≡ v.balance +ℤ a
  others : (k : ℕ) → k ≢ user_id → find_user k after ≡ find_user k before

untouched :
    (user_id : ℕ) (v : User) (before after : Store)
    → find_user user_id before ≡ some v
    → after.users ≡ before.users
    → Gains user_id (pos 0) v before after
untouched user_id v before after f e = record {
  user_after = v;
  found_after = ap (first (has_telegram_id user_id)) e ∙ f;
  balance = omega int_laws;
  others = λ k n. ap (first (has_telegram_id k)) e;
}

add_operation-users :
    (user_id : ℕ) (a : ℤ) (now : ℕ) (db : Store) → (add_operation user_id a now db).users ≡ db.users
unfolding add_operation
add_operation-users user_id a now db = refl

deliver_value-users :
    (d : Draw) (user_id : ℕ) (g : Good) (o : Option ItemValue) (db : Store)
    {r : RewardDetail × Store}
    → deliver_value d user_id g o db ≡ ok r
    → r.1.users ≡ db.users
unfolding deliver_value
deliver_value-users d user_id g none db {r} h = ground arith
deliver_value-users d user_id g (some v) db {r} h =
    bought
      (insert_bought (prize d user_id g v db)
        (record db { item_values = consume v db.item_values }))
      refl h
  where
    bought :
        (o : Result Store)
        → insert_bought
            (prize d user_id g v db)
            (record db { item_values = consume v db.item_values })
          ≡ o
        → (o >>= λ db2.
            ok (RewardDetail.delivered g.name (or_text v.value (codes "Sản phẩm KTS")), db2))
          ≡ ok r
        → r.1.users ≡ db.users
    bought (err e) q k = absurd (cc)
    bought (ok db2) q k =
        let z = insert_bought-users _ _ db2 q in
        let y : db2 ≡ r.1 = ground arith in subst (λ x. x.users ≡ db.users) y z

deliver_good-users :
    (d : Draw) (user_id : ℕ) (x : GachaItem) (o : Option Good) (db : Store)
    {r : RewardDetail × Store}
    → deliver_good d user_id x o db ≡ ok r
    → r.1.users ≡ db.users
unfolding deliver_good
deliver_good-users d user_id x none db {r} h = ground arith
deliver_good-users d user_id x (some g) db {r} h = deliver_value-users d user_id g _ db h

promo-users :
    (d : Draw) (value : ℤ) (detail : RewardDetail) (db : Store) {r : RewardDetail × Store}
    (o : Result Store)
    → insert_promo (gacha_promo d value db) db ≡ o
    → (o >>= λ db2. ok (detail, db2)) ≡ ok r
    → r.1.users ≡ db.users
promo-users d value detail db {r} (err e) q k = absurd (cc)
promo-users d value detail db {r} (ok db2) q k =
    let z = insert_promo-users _ _ db2 q in
    let y : db2 ≡ r.1 = ground arith in subst (λ x. x.users ≡ db.users) y z

fulfil_prize-Gains :
    (d : Draw) (user_id : ℕ) (x : GachaItem) (t : ItemType) (v : User) (db : Store)
    {r : RewardDetail × Store}
    → find_user user_id db ≡ some v
    → fulfil_prize d user_id x t db ≡ ok r
    → Gains user_id (reward_of d x t) v db r.1
unfolding fulfil_prize
fulfil_prize-Gains d i x balance_reward v db {r} f h =
    let a = parse_decimal d.to_decimal x.reward_value (pos 1000000) in
    let after = add_operation i (whole a) d.now (credit i a db) in
    let e : after ≡ r.1 = ground arith in
    let u = add_operation-users i (whole a) d.now (credit i a db) in
    subst (Gains i a v db) e (record {
      user_after = deposit a v;
      found_after = ap (first (has_telegram_id i)) u ∙ find_user-credit_self i a db f;
      balance = refl;
      others = λ k n.
          ap (first (has_telegram_id k)) u ∙ find_user-credit_other i k a db (λ q. n (sym q));
    })
fulfil_prize-Gains d i x promo_code v db {r} f h = untouched i v db r.1 f (
    promo-users d (parse_decimal d.to_decimal x.reward_value (pos 1000)) _ db
      (insert_promo (gacha_promo d (parse_decimal d.to_decimal x.reward_value (pos 1000)) db) db)
      refl h)
fulfil_prize-Gains d i x goods_item v db {r} f h =
    untouched i v db r.1 f (deliver_good-users d i x (good_of x.goods_id db) db h)
fulfil_prize-Gains d i x text_gift v db {r} f h = untouched i v db r.1 f (ground arith)
fulfil_prize-Gains d i x no_prize v db {r} f h = untouched i v db r.1 f (ground arith)
fulfil_prize-Gains d i x other_type v db {r} f h = untouched i v db r.1 f (ground arith)

-- A won spin: a prize of the pool, paid by a user who could, counted and recorded once.
pub record Won (d : Draw) (user_id : ℕ) (x : GachaItem) (detail : RewardDetail)
    (before after : GachaStore) : Type 0 where
  pub settings : GachaSettings
  pub settings_found : first_of before.settings ≡ some settings
  pub active : settings.is_active ≡ true
  pub stocked : In x before.items
  pub pooled : in_pool (selected d.json_list settings.selected_item_ids) x ≡ true
  pub paid : Paid user_id settings.spin_price (reward_of d x x.item_type) before.store after.store
  pub items : after.items ≡ update_where (has_gacha_id x.id) drawn_once before.items
  pub wins : after.wins ≡ before.wins ++ win d user_id x detail ∷ []

abbrev pub Spun : Draw → ℕ → GachaStore → Result (SpinReply × GachaStore) → Type 0
Spun d user_id before (err e) = Unit
Spun d user_id before (ok (refused r, after)) = after ≡ before
Spun d user_id before (ok (won x detail, after)) = Won d user_id x detail before after

pub give_prize-Paid :
    (d : Draw) (i : ℕ) (price : ℤ) (x : GachaItem) (u : User) (db : Store)
    {r : RewardDetail × Store}
    → find_user i db ≡ some u
    → price ≤ℤ u.balance
    → fulfil_prize d i x x.item_type
        (add_operation i (pos 0 -ℤ whole price) d.now (charge i price db))
      ≡ ok r
    → Paid i price (reward_of d x x.item_type) db r.1
give_prize-Paid d i price x u db {r} f a h =
    let charged = charge i price db in
    let paid = add_operation i (pos 0 -ℤ whole price) d.now charged in
    let e = add_operation-users i (pos 0 -ℤ whole price) d.now charged in
    let g =
      fulfil_prize-Gains d i x x.item_type (withdraw price u) paid
        (ap (first (has_telegram_id i)) e ∙ find_user-charge_self i price db f) h in
    record {
      user = u;
      user_found = f;
      affordable = a;
      user_after = g.user_after;
      found_after = g.found_after;
      balance = g.balance;
      others = λ k n.
          g.others k n
          ∙ ap (first (has_telegram_id k)) e
          ∙ find_user-charge_other i k price db (λ q. n (sym q));
    }
