-- ===== src/Catalog/Deleting.antt =====
-- A deletion keeps the catalog in order.
use telegramshop_zijjn.Prelude.{
  ℕ, ◌==◌, ◌≡◌, arith, if◌then◌else◌, Bool, true, false, ◌&&◌, List, [], ◌∷◌, Text, exists,
  delete_where, All, Bool-cases, Option-cases, inl, inr,
}
use telegramshop_zijjn.Prelude.Rows.{All-delete}
use telegramshop_zijjn.Prelude.Counts.{count-delete}
use telegramshop_zijjn.Models.{Category, Good, ItemValue}
use telegramshop_zijjn.Store.{Store, log_audit}
use telegramshop_zijjn.Catalog.Integrity.{IsCatalog}
use telegramshop_zijjn.Catalog.References.{Filed-delete, exists-keep, exists-apart}
use telegramshop_zijjn.Catalog.{
  has_category_id, has_category_name, has_id, has_good_name, in_category, category_named,
  good_named, delete_goods, delete_item, delete_only_items, delete_item_from_position, cascade,
  delete_category, cascade_entry,
}

-- Products go with what refers to them.
delete_goods-IsCatalog :
    (q : Good → Bool) (goes : ℕ → Bool) (db : Store)
    → ((i : ℕ)
        → exists (has_id i) db.goods ≡ true
        → goes i ≡ false
        → exists (has_id i) (delete_where q db.goods) ≡ true)
    → IsCatalog db
    → IsCatalog (delete_goods q goes db)
unfolding delete_goods
delete_goods-IsCatalog q goes db k h = record {
  names = λ m. omega (arith, h.names m, count-delete (has_good_name m) q db.goods);
  ids = λ i. omega (arith, h.ids i, count-delete (has_id i) q db.goods);
  fresh = λ i b. omega (arith, h.fresh i b, count-delete (has_id i) q db.goods);
  categories = h.categories;
  filed = All-delete _ q db.goods h.filed;
  stock = Filed-delete (λ v. v.item_id) goes db.item_values db.goods _ k h.stock;
  carts = Filed-delete (λ v. v.item_id) goes db.cart_items db.goods _ k h.carts;
  waiting = Filed-delete (λ v. v.item_id) goes db.stock_subscriptions db.goods _ k h.waiting;
}

pub delete_item-IsCatalog :
    (name : Text) (db : Store) → IsCatalog db → IsCatalog (delete_item name db)
unfolding delete_item
delete_item-IsCatalog name db h = elim (Option-cases (good_named name db)) [
  | inl e ↦ rw (e, delete_item) h
  | inr (g, e) ↦
      rw (e, delete_item)
        (delete_goods-IsCatalog (has_id g.id) (λ i. g.id == i) db
          (λ i k n. exists-keep (has_id i) (has_id g.id) db.goods (λ a p. ground arith) k) h)
]

restock-IsCatalog :
    (q : ItemValue → Bool) (db : Store)
    → IsCatalog db
    → IsCatalog (record db { item_values = delete_where q db.item_values })
restock-IsCatalog q db h = record {
  names = h.names;
  ids = h.ids;
  fresh = h.fresh;
  categories = h.categories;
  filed = h.filed;
  stock = All-delete _ q db.item_values h.stock;
  carts = h.carts;
  waiting = h.waiting;
}

pub delete_only_items-IsCatalog :
    (name : Text) (db : Store) → IsCatalog db → IsCatalog (delete_only_items name db)
unfolding delete_only_items
delete_only_items-IsCatalog name db h = elim (Option-cases (good_named name db)) [
  | inl e ↦ rw (e, delete_only_items) h
  | inr (g, e) ↦ rw (e, delete_only_items) (restock-IsCatalog (λ v. v.item_id == g.id) db h)
]

pub delete_item_from_position-IsCatalog :
    (i : ℕ) (db : Store) → IsCatalog db → IsCatalog (delete_item_from_position i db)
unfolding delete_item_from_position
delete_item_from_position-IsCatalog i db h = restock-IsCatalog (λ v. v.id == i) db h

logged-IsCatalog :
    (b : Bool) (name : Text) (db : Store)
    → IsCatalog db
    → IsCatalog (if b then log_audit (cascade_entry name) db else db)
unfolding log_audit
logged-IsCatalog false name db h = h
logged-IsCatalog true name db h = record {
  names = h.names;
  ids = h.ids;
  fresh = h.fresh;
  categories = h.categories;
  filed = h.filed;
  stock = h.stock;
  carts = h.carts;
  waiting = h.waiting;
}

-- A category goes with its products.
cascade-IsCatalog : (c : Category) (db : Store) → IsCatalog db → IsCatalog (cascade c db)
unfolding cascade delete_goods
cascade-IsCatalog c db h =
    let goes = λ (i : ℕ). exists (λ g. g.id == i && in_category c.id g) db.goods in
    let k =
      delete_goods-IsCatalog (in_category c.id) goes db
        (λ i p n. exists-apart (has_id i) (in_category c.id) db.goods n p) h in
    record {
      names = k.names;
      ids = k.ids;
      fresh = k.fresh;
      categories = λ m. omega (
        arith,
        h.categories m,
        count-delete (has_category_name m) (has_category_id c.id) db.categories,
      );
      filed = others db.goods h.filed;
      stock = k.stock;
      carts = k.carts;
      waiting = k.waiting;
    }
  where
    others :
        (gs : List Good)
        → All (λ g. exists (has_category_id g.category_id) db.categories ≡ true) gs
        → All
            (λ g.
              exists
                (has_category_id g.category_id)
                (delete_where (has_category_id c.id) db.categories)
              ≡ true)
            (delete_where (in_category c.id) gs)
    others [] a = tt
    others (g ∷ gs) a = elim (Bool-cases (in_category c.id g)) [
      | inl e ↦ rw e (others gs a.1)
      | inr e ↦ rw e (
        exists-keep (has_category_id g.category_id) (has_category_id c.id) db.categories
            (λ x p. ground arith) a.0,
        others gs a.1,
      )
    ]

pub delete_category-IsCatalog :
    (name : Text) (db : Store) → IsCatalog db → IsCatalog (delete_category name db)
unfolding delete_category
delete_category-IsCatalog name db h = elim (Option-cases (category_named name db)) [
  | inl e ↦ rw (e, delete_category) h
  | inr (c, e) ↦
      rw (e, delete_category)
        (cascade-IsCatalog c _ (logged-IsCatalog (exists (in_category c.id) db.goods) name db h))
]
