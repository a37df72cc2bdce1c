-- ===== src/Catalog/Editing.antt =====
-- A change of a product keeps the catalog in order.
use telegramshop_zijjn.Prelude.{
  ℕ, ◌+◌, ◌==◌, ◌≤◌, ◌≡◌, refl, sym, ◌∙◌, subst, ap, arith, if◌then◌else◌, Bool, true, false,
  Option, none, some, List, ℤ, Text, text_eq, text_eq→eq, first, exists, count, update_where,
  Bool-cases, Option-cases, inl, inr,
}
use telegramshop_zijjn.Prelude.Rows.{first-holds, All-update}
use telegramshop_zijjn.Prelude.Counts.{count-update, count-update_one}
use telegramshop_zijjn.Prelude.Members.{first-In, single-In}
use telegramshop_zijjn.Models.{Category, Good, SaleUntil, BoughtGood}
use telegramshop_zijjn.Store.{Store}
use telegramshop_zijjn.Catalog.Integrity.{IsCatalog, good_named-exists, category_named-exists}
use telegramshop_zijjn.Catalog.References.{Filed-mono, exists-update, exists-count, none-exists}
use telegramshop_zijjn.Catalog.{
  has_category_id, has_id, has_good_name, category_named, good_named, edited, edit_good, edit_in,
  edit_found, update_item, on_sale, set_item_sale, is_bought_of, bought_as,
}

-- A product that was found by its name is found by its id.
good_by_id :
    (name : Text) (db : Store) (g : Good)
    → IsCatalog db
    → good_named name db ≡ some g
    → first (has_id g.id) db.goods ≡ some g
unfolding good_named
good_by_id name db g h f = go (first (has_id g.id) db.goods) refl
  where
    here : has_id g.id g ≡ true
    here = ground arith

    go :
        (o : Option Good) → first (has_id g.id) db.goods ≡ o → first (has_id g.id) db.goods ≡ some g
    go none e = absurd (cc (none-exists (has_id g.id) db.goods e, good_named-exists name db g f))
    go (some b) e =
        e
        ∙ ap some
            (sym (single-In (has_id g.id) db.goods (h.ids g.id) e here (first-In _ db.goods f)))

-- Products that keep their ids, and their categories or take one that is there.
regood-IsCatalog :
    (db : Store) (i : ℕ) (f : Good → Good)
    → IsCatalog db
    → ((g : Good) → (f g).id ≡ g.id)
    → ((g : Good)
        → exists (has_category_id g.category_id) db.categories ≡ true
        → exists (has_category_id (f g).category_id) db.categories ≡ true)
    → ((m : Text) → count (has_good_name m) (update_where (has_id i) f db.goods) ≤ 1)
    → IsCatalog (record db { goods = update_where (has_id i) f db.goods })
regood-IsCatalog db i f h k c n = record {
  names = n;
  ids = λ j. omega (arith, h.ids j, count-update (has_id j) (has_id i) f db.goods (same j));
  fresh = λ j b. omega (arith, h.fresh j b, count-update (has_id j) (has_id i) f db.goods (same j));
  categories = h.categories;
  filed = All-update _ (has_id i) f (λ a p _. c a p) db.goods h.filed;
  stock = Filed-mono (λ v. v.item_id) db.item_values db.goods _ kept h.stock;
  carts = Filed-mono (λ v. v.item_id) db.cart_items db.goods _ kept h.carts;
  waiting = Filed-mono (λ v. v.item_id) db.stock_subscriptions db.goods _ kept h.waiting;
}
  where
    same : (j : ℕ) (a : Good) → has_id j (f a) ≡ has_id j a
    same j a = ap (λ x. x == j) (k a)

    kept :
        (j : ℕ)
        → exists (has_id j) db.goods ≡ true
        → exists (has_id j) (update_where (has_id i) f db.goods) ≡ true
    kept j p = exists-update (has_id j) (has_id i) f db.goods (same j) ∙ p

rebought-IsCatalog :
    (db : Store) (bs : List BoughtGood) → IsCatalog db → IsCatalog (record db { bought_goods = bs })
rebought-IsCatalog db bs h = record {
  names = h.names;
  ids = h.ids;
  fresh = h.fresh;
  categories = h.categories;
  filed = h.filed;
  stock = h.stock;
  carts = h.carts;
  waiting = h.waiting;
}

name_of : (name : Text) (db : Store) (g : Good) → good_named name db ≡ some g → g.name ≡ name
unfolding good_named
name_of name db g f = text_eq→eq g.name name (first-holds (has_good_name name) db.goods {a = g} f)

edit_good-IsCatalog :
    (g : Good) (item_name new_name description : Text) (price : ℤ) (c : Category) (db : Store)
    → good_named item_name db ≡ some g
    → exists (has_category_id c.id) db.categories ≡ true
    → IsCatalog db
    → IsCatalog (edit_good g item_name new_name description price c db).1
unfolding edit_good
edit_good-IsCatalog g item_name new_name description price c db f k h =
    elim (Bool-cases (text_eq new_name item_name)) [
      | inl e ↦ rw e (
          regood-IsCatalog db g.id (edited new_name description price c.id) h (λ a. refl) (λ a _. k)
            (λ m. ground (arith, moved m, h.names m, own m e)))
      | inr e ↦ elim (Bool-cases (exists (has_good_name new_name) db.goods)) [
        | inl d ↦ rw (e, d) h
        | inr d ↦
            let bs = update_where (is_bought_of item_name) (bought_as new_name) db.bought_goods in
            rw (e, d)
              (regood-IsCatalog (record db { bought_goods = bs }) g.id
                (edited new_name description price c.id) (rebought-IsCatalog db bs h) (λ a. refl)
                (λ a _. k) (λ m. ground (arith, moved m, h.names m, free m d)))
      ]
    ]
  where
    moved :
        (m : Text)
        → count
              (has_good_name m)
              (update_where (has_id g.id) (edited new_name description price c.id) db.goods)
            + (if text_eq g.name m then 1 else 0)
          ≡ count (has_good_name m) db.goods + (if text_eq new_name m then 1 else 0)
    moved m =
        count-update_one (has_good_name m) (has_id g.id) (edited new_name description price c.id)
          db.goods (h.ids g.id) (good_by_id item_name db g h f)

    own : (m : Text) → text_eq new_name item_name ≡ true → text_eq g.name m ≡ text_eq new_name m
    own m e =
        ap (λ t. text_eq t m) (name_of item_name db g f ∙ sym (text_eq→eq new_name item_name e))

    free :
        (m : Text)
        → exists (has_good_name new_name) db.goods ≡ false
        → text_eq new_name m ≡ true
        → count (has_good_name m) db.goods ≡ 0
    free m d q =
        exists-count (has_good_name m) db.goods
          (subst (λ t. exists (has_good_name t) db.goods ≡ false) (text_eq→eq new_name m q) d)

pub update_item-IsCatalog :
    (fails : Bool) (item_name new_name description : Text) (price : ℤ) (category : Text)
    (db : Store)
    → IsCatalog db
    → IsCatalog (update_item fails item_name new_name description price category db).1
unfolding update_item edit_found edit_in
update_item-IsCatalog true item_name new_name description price category db h = h
update_item-IsCatalog false item_name new_name description price category db h =
    found (good_named item_name db) refl
  where
    found :
        (o : Option Good)
        → good_named item_name db ≡ o
        → IsCatalog (edit_found o item_name new_name description price category db).1
    found none f = h
    found (some g) f = go (category_named category db) refl
      where
        go :
            (o : Option Category)
            → category_named category db ≡ o
            → IsCatalog (edit_in g item_name new_name description price o db).1
        go none k = h
        go (some c) k =
            edit_good-IsCatalog g item_name new_name description price c db f
              (category_named-exists category db c k) h

pub set_item_sale-IsCatalog :
    (name : Text) (percent : Option ℤ) (until : SaleUntil) (db : Store)
    → IsCatalog db
    → IsCatalog (set_item_sale name percent until db).1
unfolding set_item_sale
set_item_sale-IsCatalog name percent until db h = elim (Option-cases (good_named name db)) [
  | inl e ↦ rw (e, set_item_sale) h
  | inr (g, e) ↦
      rw (e, set_item_sale)
        (regood-IsCatalog db g.id (on_sale percent until) h (λ a. refl) (λ a k. k)
          (λ m. omega (
            arith,
            h.names m,
            count-update (has_good_name m) (has_id g.id) (on_sale percent until) db.goods
                (λ a. refl),
          )))
]
