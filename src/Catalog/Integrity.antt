-- ===== src/Catalog/Integrity.antt =====
-- Names stay unique in the catalog, and what refers to a product or a category finds it.

use telegramshop_zijjn.Prelude.{
  ℕ, ◌≤◌, ◌≡◌, refl, subst, arith, Bool, true, false, Option, none, some, List, [], ◌∷◌, ◌++◌, ℤ,
  Text, text_eq, text_eq→eq, exists, count, strip, length, leb, All, Bool-cases, inl, inr,
}
use telegramshop_zijjn.Prelude.Rows.{exists-append, All-append}
use telegramshop_zijjn.Prelude.Counts.{count-append}
use telegramshop_zijjn.Models.{Category, Good}
use telegramshop_zijjn.Store.{Store}
use telegramshop_zijjn.Catalog.References.{All-mono, Filed, Filed-mono, exists-first, exists-count}
use telegramshop_zijjn.Catalog.{
  has_category_id, has_category_name, has_id, has_good_name, category_named, good_named,
  create_category, new_good, insert_good, create_item, is_value, new_value, insert_value,
  add_values_to_item,
}

-- No two products share a name or an id, no two categories a name, the ids of products are below the
-- next one; every product has its category, and every row of stock, of a cart and of the waiting list
-- its product.
pub record IsCatalog (db : Store) : Type 0 where
  pub names : (m : Text) → count (has_good_name m) db.goods ≤ 1
  pub ids : (i : ℕ) → count (has_id i) db.goods ≤ 1
  pub fresh : (i : ℕ) → db.next_id ≤ i → count (has_id i) db.goods ≡ 0
  pub categories : (m : Text) → count (has_category_name m) db.categories ≤ 1
  pub filed : All (λ g. exists (has_category_id g.category_id) db.categories ≡ true) db.goods
  pub stock : Filed (λ v. v.item_id) db.item_values db.goods
  pub carts : Filed (λ c. c.item_id) db.cart_items db.goods
  pub waiting : Filed (λ s. s.item_id) db.stock_subscriptions db.goods

grow :
    {A : Type 0} (p : A → Bool) (xs : List A) (x : A)
    → exists p xs ≡ true
    → exists p (xs ++ x ∷ []) ≡ true
grow p xs x h = ground (arith, exists-append p xs (x ∷ []))

pub create_category-IsCatalog :
    (name : Text) (db : Store) → IsCatalog db → IsCatalog (create_category name db)
unfolding create_category
create_category-IsCatalog name db h =
    elim (Bool-cases (exists (has_category_name name) db.categories)) [
      | inl e ↦ rw e h
      | inr e ↦
          let row : Category = record { id = db.next_id; name = name } in
          rw e (record {
            names = h.names;
            ids = h.ids;
            fresh = λ i b. h.fresh i (omega (arith, b));
            categories = λ m. ground (
              arith,
              count-append (has_category_name m) db.categories row,
              h.categories m,
              name_free m e,
            );
            filed =
                All-mono _ _ db.goods
                  (λ g k. grow (has_category_id g.category_id) db.categories row k) h.filed;
            stock = h.stock;
            carts = h.carts;
            waiting = h.waiting;
          })
    ]
  where
    name_free :
        (m : Text)
        → exists (has_category_name name) db.categories ≡ false
        → text_eq name m ≡ true
        → count (has_category_name m) db.categories ≡ 0
    name_free m e k =
        exists-count (has_category_name m) db.categories
          (subst (λ t. exists (has_category_name t) db.categories ≡ false) (text_eq→eq name m k) e)

insert_good-IsCatalog :
    (name description : Text) (price : ℤ) (o : Option Category) (db : Store)
    → exists (has_good_name name) db.goods ≡ false
    → ((c : Category) → o ≡ some c → exists (has_category_id c.id) db.categories ≡ true)
    → IsCatalog db
    → IsCatalog (insert_good name description price o db)
unfolding insert_good
insert_good-IsCatalog name description price none db e k h = h
insert_good-IsCatalog name description price (some c) db e k h = record {
  names = λ m. ground (arith, count-append (has_good_name m) db.goods row, h.names m, name_free m);
  ids = λ i. ground (arith, count-append (has_id i) db.goods row, h.ids i, h.fresh i);
  fresh = λ i b.
      let n = h.fresh i (omega (arith, b)) in ground (arith, count-append (has_id i) db.goods row);
  categories = h.categories;
  filed = All-append _ db.goods (row ∷ []) h.filed (k c refl, tt);
  stock = Filed-mono (λ v. v.item_id) db.item_values db.goods _ more h.stock;
  carts = Filed-mono (λ v. v.item_id) db.cart_items db.goods _ more h.carts;
  waiting = Filed-mono (λ v. v.item_id) db.stock_subscriptions db.goods _ more h.waiting;
}
  where
    row : Good
    row = new_good db.next_id name description price c.id

    more :
        (i : ℕ)
        → exists (has_id i) db.goods ≡ true
        → exists (has_id i) (db.goods ++ row ∷ []) ≡ true
    more i k = grow (has_id i) db.goods row k

    name_free : (m : Text) → text_eq name m ≡ true → count (has_good_name m) db.goods ≡ 0
    name_free m k =
        exists-count (has_good_name m) db.goods
          (subst (λ t. exists (has_good_name t) db.goods ≡ false) (text_eq→eq name m k) e)

pub category_named-exists :
    (name : Text) (db : Store) (c : Category)
    → category_named name db ≡ some c
    → exists (has_category_id c.id) db.categories ≡ true
unfolding category_named
category_named-exists name db c f =
    exists-first (has_category_id c.id) (has_category_name name) db.categories f (ground arith)

pub create_item-IsCatalog :
    (name description : Text) (price : ℤ) (category : Text) (db : Store)
    → IsCatalog db
    → IsCatalog (create_item name description price category db)
unfolding create_item
create_item-IsCatalog name description price category db h =
    elim (Bool-cases (exists (has_good_name (strip name)) db.goods)) [
      | inl e ↦ rw e h
      | inr e ↦ rw e (
          insert_good-IsCatalog (strip name) description price (category_named (strip category) db)
            db e (category_named-exists (strip category) db) h)
    ]

insert_value-IsCatalog :
    (value : Text) (is_infinity : Bool) (o : Option Good) (db : Store)
    → ((g : Good) → o ≡ some g → exists (has_id g.id) db.goods ≡ true)
    → IsCatalog db
    → IsCatalog (insert_value value is_infinity o db).1
unfolding insert_value
insert_value-IsCatalog value is_infinity none db k h = h
insert_value-IsCatalog value is_infinity (some g) db k h =
    elim (Bool-cases (exists (is_value g.id value) db.item_values)) [
      | inl e ↦ rw e h
      | inr e ↦ rw e (record {
        names = h.names;
        ids = h.ids;
        fresh = λ i b. h.fresh i (omega (arith, b));
        categories = h.categories;
        filed = h.filed;
        stock =
            All-append _ db.item_values (new_value db.next_id g.id value is_infinity ∷ []) h.stock
              (k g refl, tt);
        carts = h.carts;
        waiting = h.waiting;
      })
    ]

pub good_named-exists :
    (name : Text) (db : Store) (g : Good)
    → good_named name db ≡ some g
    → exists (has_id g.id) db.goods ≡ true
unfolding good_named
good_named-exists name db g f =
    exists-first (has_id g.id) (has_good_name name) db.goods f (ground arith)

pub add_values_to_item-IsCatalog :
    (name value : Text) (is_infinity : Bool) (db : Store)
    → IsCatalog db
    → IsCatalog (add_values_to_item name value is_infinity db).1
unfolding add_values_to_item
add_values_to_item-IsCatalog name value is_infinity db h =
    elim (Bool-cases (leb (length (strip value)) 0)) [
      | inl e ↦ rw e h
      | inr e ↦ rw e (
          insert_value-IsCatalog (strip value) is_infinity (good_named name db) db
            (good_named-exists name db) h)
    ]
