-- ===== src/Transactions/Checkout/Laws.antt =====
-- What a checkout does: each unit is sold at its price, and the prices add up to what is charged.
use telegramshop_zijjn.Prelude.{
  ◌+◌, delete_where, ℕ, suc, ◌≡◌, refl, ◌∙◌, sym, ap, subst, arith, some, List, [], ◌∷◌, ◌++◌, ℤ,
  pos, ◌+ℤ◌, int_laws, length, All, inl, inr,
}
use telegramshop_zijjn.Prelude.Rows.{All-append}
use telegramshop_zijjn.Models.{Good, ItemValue, BoughtGood, PromoCode}
use telegramshop_zijjn.Promo.{record_usage}
use telegramshop_zijjn.Pricing.Split.{sum_ℤ}
use telegramshop_zijjn.Store.{Store, ok, Result-cases}
use telegramshop_zijjn.Transactions.Fulfil.{Delivery}
use telegramshop_zijjn.Transactions.Buy.{insert_bought}
use telegramshop_zijjn.Transactions.Stock.{has_value_id}
use telegramshop_zijjn.Transactions.Checkout.{
  Round, Delivered, deliver_units, deliver_lines, delete_values, record_promos, sale_row,
}
use telegramshop_zijjn.Transactions.Checkout.Resolve.{Line}
use telegramshop_zijjn.Transactions.Checkout.Resolve.Totals.{sum_lines, IsMatched}

abbrev pub paid : List Delivered → ℤ
paid [] = pos 0
paid (d ∷ ds) = d.row.price +ℤ paid ds

abbrev pub rows_of : List Delivered → List BoughtGood
rows_of [] = []
rows_of (d ∷ ds) = d.row ∷ rows_of ds

-- The rows are recorded, in their order and for this buyer, and the tables of the users, the cart and
-- the promo codes stay.
pub record IsDelivered (user_id : ℕ) (ds : List Delivered) (db db' : Store) : Type 0 where
  pub sales : db'.bought_goods ≡ db.bought_goods ++ rows_of ds
  pub buyers : All (λ d. d.row.buyer_id ≡ some user_id) ds
  pub users : db'.users ≡ db.users
  pub cart : db'.cart_items ≡ db.cart_items

append_nil : {A : Type 0} (xs : List A) → xs ++ [] ≡ xs
append_nil [] = refl
append_nil (x ∷ xs) = ap (λ ys. x ∷ ys) (append_nil xs)

append_assoc : {A : Type 0} (xs ys zs : List A) → (xs ++ ys) ++ zs ≡ xs ++ (ys ++ zs)
append_assoc [] ys zs = refl
append_assoc (x ∷ xs) ys zs = ap (λ l. x ∷ l) (append_assoc xs ys zs)

pub nothing-IsDelivered : (user_id : ℕ) (db : Store) → IsDelivered user_id [] db db
nothing-IsDelivered user_id db = record {
  sales = sym (append_nil db.bought_goods);
  buyers = tt;
  users = refl;
  cart = refl;
}

rows_of-append : (xs ys : List Delivered) → rows_of (xs ++ ys) ≡ rows_of xs ++ rows_of ys
rows_of-append [] ys = refl
rows_of-append (x ∷ xs) ys = ap (λ l. x.row ∷ l) (rows_of-append xs ys)

paid-append : (xs ys : List Delivered) → paid (xs ++ ys) ≡ paid xs +ℤ paid ys
paid-append [] ys = grind int_laws
paid-append (x ∷ xs) ys = grind (int_laws, paid-append xs ys)

both-IsDelivered :
    {user_id : ℕ} {xs ys : List Delivered} {db1 db2 db3 : Store}
    → IsDelivered user_id xs db1 db2
    → IsDelivered user_id ys db2 db3
    → IsDelivered user_id (xs ++ ys) db1 db3
both-IsDelivered {xs = xs} {ys = ys} {db1 = db1} a b = record {
  sales =
      rw (b.sales, a.sales, rows_of-append xs ys)
        (append_assoc db1.bought_goods (rows_of xs) (rows_of ys));
  buyers = All-append (λ d. d.row.buyer_id ≡ some _) xs ys a.buyers b.buyers;
  users = b.users ∙ a.users;
  cart = b.cart ∙ a.cart;
}

-- A result of delivering `ds` from `db`, at these prices together.
abbrev pub DeliveredAt : ℕ → ℤ → Store → List Delivered × Store → Type 0
DeliveredAt user_id total db r = IsDelivered user_id r.0 db r.1 × (paid r.0 ≡ total)

insert-IsDelivered :
    (user_id : ℕ) (d : Delivered) (db : Store) {db' : Store}
    → d.row.buyer_id ≡ some user_id
    → insert_bought d.row db ≡ ok db'
    → IsDelivered user_id (d ∷ []) db db'
unfolding insert_bought
insert-IsDelivered user_id d db {db'} b h = record {
  sales = ground arith;
  buyers = (b, tt);
  users = ground arith;
  cart = ground arith;
}

deliver_units-IsDelivered :
    (r : Round) (user_id : ℕ) (goods : Good) (ds : List Delivery) (prices : List ℤ) (n : ℕ)
    (db : Store) {out : List Delivered} {db' : Store}
    → length ds ≡ length prices
    → deliver_units r user_id goods ds prices n db ≡ ok (out, db')
    → DeliveredAt user_id (sum_ℤ prices) db (out, db')
unfolding deliver_units
deliver_units-IsDelivered r u g [] [] n db l h =
    subst (DeliveredAt u (pos 0) db) {x = ([], db)} (ground arith) (nothing-IsDelivered u db, refl)
deliver_units-IsDelivered r u g [] (p ∷ ps) n db l h = absurd (omega (arith, l))
deliver_units-IsDelivered r u g (d ∷ ds) [] n db l h = absurd (omega (arith, l))
deliver_units-IsDelivered r u g (d ∷ ds) (p ∷ ps) n db {out} {db'} l h =
    elim (Result-cases (insert_bought (sale_row r u g d p n db) db)) [
      | inl (f, e) ↦ absurd (ground arith)
      | inr (db2, e) ↦ elim (Result-cases (deliver_units r u g ds ps (suc n) db2)) [
        | inl (f, k) ↦ absurd (ground arith)
        | inr (rest, k) ↦
            let i =
              deliver_units-IsDelivered r u g ds ps (suc n) db2 {out = rest.0} {db' = rest.1}
                (omega (arith, l)) k in
            let x : Delivered = record {
              row = sale_row r u g d p n db;
              delivery_template = g.delivery_template;
            } in
            subst (DeliveredAt u (p +ℤ sum_ℤ ps) db) {x = (x ∷ rest.0, rest.1)} (ground arith)
              (both-IsDelivered (insert-IsDelivered u x db refl e) i.0, ap (λ t. p +ℤ t) i.1)
      ]
    ]

delete_values-keeps :
    (vs : List ItemValue) (db : Store)
    → (delete_values vs db).bought_goods ≡ db.bought_goods
      × (delete_values vs db).users ≡ db.users
      × (delete_values vs db).cart_items ≡ db.cart_items
delete_values-keeps [] db = (refl, refl, refl)
delete_values-keeps (v ∷ vs) db =
    delete_values-keeps vs
      (record db { item_values = delete_where (has_value_id v.id) db.item_values })

IsDelivered-from :
    {user_id : ℕ} {ds : List Delivered} {db1 db' : Store} (db : Store)
    → db1.bought_goods ≡ db.bought_goods × db1.users ≡ db.users × db1.cart_items ≡ db.cart_items
    → IsDelivered user_id ds db1 db'
    → IsDelivered user_id ds db db'
IsDelivered-from db (b, u, c) i = record {
  sales = rw (← b) i.sales;
  buyers = i.buyers;
  users = i.users ∙ u;
  cart = i.cart ∙ c;
}

pub deliver_lines-IsDelivered :
    (r : Round) (user_id : ℕ) (ls : List Line) (n : ℕ) (db : Store) {out : List Delivered}
    {db' : Store}
    → All IsMatched ls
    → deliver_lines r user_id ls n db ≡ ok (out, db')
    → DeliveredAt user_id (sum_lines ls) db (out, db')
unfolding deliver_lines
deliver_lines-IsDelivered r u [] n db m h =
    subst (DeliveredAt u (pos 0) db) {x = ([], db)} (ground arith) (nothing-IsDelivered u db, refl)
deliver_lines-IsDelivered r u (l ∷ ls) n db m h =
    elim (Result-cases (
      deliver_units r u l.goods l.deliveries l.unit_prices n
        (delete_values l.values_to_delete db))) [
          | inl (f, e) ↦ absurd (ground arith)
          | inr (x, e) ↦ elim (Result-cases (deliver_lines r u ls (n + length x.0) x.1)) [
            | inl (f, k) ↦ absurd (ground arith)
            | inr (y, k) ↦
                let i =
                  deliver_units-IsDelivered r u l.goods l.deliveries l.unit_prices n
                    (delete_values l.values_to_delete db) {out = x.0} {db' = x.1} m.0 e in
                let j =
                  deliver_lines-IsDelivered r u ls (n + length x.0) x.1 {out = y.0} {db' = y.1} m.1
                    k in
                subst (DeliveredAt u (sum_lines (l ∷ ls)) db) {x = (x.0 ++ y.0, y.1)} (ground arith)
                  (
                    both-IsDelivered
                        (IsDelivered-from db (delete_values-keeps l.values_to_delete db) i.0) j.0,
                    paid-append x.0 y.0 ∙ rw (i.1, j.1) refl,
                  )
          ]
        ]

pub record_promos-keeps :
    (user_id : ℕ) (ps : List PromoCode) (db : Store)
    → (record_promos user_id ps db).bought_goods ≡ db.bought_goods
      × (record_promos user_id ps db).users ≡ db.users
      × (record_promos user_id ps db).cart_items ≡ db.cart_items
unfolding record_promos record_usage
record_promos-keeps user_id [] db = (refl, refl, refl)
record_promos-keeps user_id (p ∷ ps) db = record_promos-keeps user_id ps (record_usage p user_id db)
