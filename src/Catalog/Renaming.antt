-- ===== src/Catalog/Renaming.antt =====
-- A rename of a category keeps the catalog in order: the unique constraint refuses a name that is taken.
use telegramshop_zijjn.Prelude.{
  ℕ, ◌+◌, ◌≡◌, refl, sym, subst, ◌∙◌, arith, if◌then◌else◌, not, ◌&&◌, true, false, some, Text,
  text_eq, text_eq→eq, first, exists, count, update_where, Bool-cases, Option-cases, ◌⊎◌, inl, inr,
}
use telegramshop_zijjn.Prelude.Rows.{first-holds}
use telegramshop_zijjn.Prelude.Counts.{count-update_one}
use telegramshop_zijjn.Models.{Category}
use telegramshop_zijjn.Store.{Store}
use telegramshop_zijjn.Catalog.Integrity.{IsCatalog}
use telegramshop_zijjn.Catalog.References.{All-mono, exists-update, exists-count}
use telegramshop_zijjn.Catalog.{
  has_category_id, has_category_name, category_named, renamed_category, rename_category,
  update_category,
}

rename_category-IsCatalog :
    (new_name : Text) (c : Category) (db : Store)
    → first (has_category_name c.name) db.categories ≡ some c
    → IsCatalog db
    → IsCatalog (rename_category new_name c db).1
unfolding rename_category
rename_category-IsCatalog new_name c db f h =
    elim (Bool-cases
      (not (text_eq c.name new_name) && exists (has_category_name new_name) db.categories)) [
        | inl e ↦ rw e h
        | inr e ↦ rw e (record {
          names = h.names;
          ids = h.ids;
          fresh = h.fresh;
          categories = λ m. ground (arith, moved m, h.categories m, taken m e);
          filed = All-mono _ _ db.goods (λ g k. kept g.category_id ∙ k) h.filed;
          stock = h.stock;
          carts = h.carts;
          waiting = h.waiting;
        })
      ]
  where
    moved :
        (m : Text)
        → count
              (has_category_name m)
              (update_where (has_category_name c.name) (renamed_category new_name) db.categories)
            + (if text_eq c.name m then 1 else 0)
          ≡ count (has_category_name m) db.categories + (if text_eq new_name m then 1 else 0)
    moved m =
        count-update_one (has_category_name m) (has_category_name c.name)
          (renamed_category new_name) db.categories (h.categories c.name) f

    kept :
        (i : ℕ)
        → exists
            (has_category_id i)
            (update_where (has_category_name c.name) (renamed_category new_name) db.categories)
          ≡ exists (has_category_id i) db.categories
    kept i =
        exists-update (has_category_id i) (has_category_name c.name) _ db.categories (λ a. refl)

    -- The new name was the category's own, or free.
    taken :
        (m : Text)
        → not (text_eq c.name new_name) && exists (has_category_name new_name) db.categories ≡ false
        → text_eq new_name m ≡ true
        → (text_eq c.name m ≡ true) ⊎ (count (has_category_name m) db.categories ≡ 0)
    taken m e q = elim (Bool-cases (text_eq c.name new_name)) [
      | inl own ↦ inl (subst (λ t. text_eq c.name t ≡ true) (text_eq→eq new_name m q) own)
      | inr new ↦ inr (
          exists-count (has_category_name m) db.categories (
            subst (λ t. exists (has_category_name t) db.categories ≡ false)
              (text_eq→eq new_name m q) (ground arith)))
    ]

pub update_category-IsCatalog :
    (name new_name : Text) (db : Store)
    → IsCatalog db
    → IsCatalog (update_category name new_name db).1
unfolding update_category category_named
update_category-IsCatalog name new_name db h =
    elim (Option-cases (first (has_category_name name) db.categories)) [
      | inl e ↦ rw (e, update_category) h
      | inr (c, e) ↦
          let q =
            text_eq→eq c.name name (first-holds (has_category_name name) db.categories {a = c} e) in
          rw (e, update_category)
            (rename_category-IsCatalog new_name c db
              (subst (λ t. first (has_category_name t) db.categories ≡ some c) (sym q) e) h)
    ]
