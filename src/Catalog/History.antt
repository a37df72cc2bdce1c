-- ===== src/Catalog/History.antt =====
-- The catalog stays in order through any history of changes.
use telegramshop_zijjn.Prelude.{List, [], ◌∷◌}
use telegramshop_zijjn.Store.{Store}
use telegramshop_zijjn.Catalog.{
  Change, category_created, category_deleted, item_deleted, stock_cleared, item_created,
  value_added, item_updated, sale_set, row_deleted, category_renamed, apply, apply_all,
}
use telegramshop_zijjn.Catalog.Integrity.{
  IsCatalog, create_category-IsCatalog, create_item-IsCatalog, add_values_to_item-IsCatalog,
}
use telegramshop_zijjn.Catalog.Editing.{update_item-IsCatalog, set_item_sale-IsCatalog}
use telegramshop_zijjn.Catalog.Renaming.{update_category-IsCatalog}
use telegramshop_zijjn.Catalog.Deleting.{
  delete_item-IsCatalog, delete_only_items-IsCatalog, delete_item_from_position-IsCatalog,
  delete_category-IsCatalog,
}

apply-IsCatalog : (c : Change) (db : Store) → IsCatalog db → IsCatalog (apply c db)
unfolding apply
apply-IsCatalog (category_created name) db h = create_category-IsCatalog name db h
apply-IsCatalog (category_deleted name) db h = delete_category-IsCatalog name db h
apply-IsCatalog (item_deleted name) db h = delete_item-IsCatalog name db h
apply-IsCatalog (stock_cleared name) db h = delete_only_items-IsCatalog name db h
apply-IsCatalog (item_created name description price category) db h =
    create_item-IsCatalog name description price category db h
apply-IsCatalog (value_added name value is_infinity) db h =
    add_values_to_item-IsCatalog name value is_infinity db h
apply-IsCatalog (item_updated fails name new_name description price category) db h =
    update_item-IsCatalog fails name new_name description price category db h
apply-IsCatalog (sale_set name percent until) db h = set_item_sale-IsCatalog name percent until db h
apply-IsCatalog (row_deleted i) db h = delete_item_from_position-IsCatalog i db h
apply-IsCatalog (category_renamed name new_name) db h = update_category-IsCatalog name new_name db h

-- Through any history of creations of categories, products and stock, changes and renames of products,
-- renames of categories, sales and deletions, refused and failed ones included, the names of products
-- and of categories stay unique, every product keeps a category that is there, and no row of stock, of
-- a cart or of the waiting list refers to a product that is gone.
pub apply_all-IsCatalog :
    (cs : List Change) (db : Store) → IsCatalog db → IsCatalog (apply_all cs db)
unfolding apply_all
apply_all-IsCatalog [] db h = h
apply_all-IsCatalog (c ∷ cs) db h = apply_all-IsCatalog cs (apply c db) (apply-IsCatalog c db h)
