-- ===== src/Tests/Shelves.antt =====
-- The catalog of the small shop, and its waiting list.
use telegramshop_zijjn.Prelude.{◌≡◌, refl, arith, false, [], ◌∷◌, List, codes, pos}
use telegramshop_zijjn.Models.{Category}
use telegramshop_zijjn.Store.{Store}
use telegramshop_zijjn.Catalog.{
  Change, category_created, item_created, item_updated, value_added, item_deleted, category_deleted,
  category_renamed, apply_all,
}
use telegramshop_zijjn.Catalog.Integrity.{IsCatalog}
use telegramshop_zijjn.Catalog.History.{apply_all-IsCatalog}
use telegramshop_zijjn.Catalog.Waiting.{waiting}
use telegramshop_zijjn.Catalog.Waiting.Abstract.{Request, subscribe, unsubscribe, pop}
use telegramshop_zijjn.Catalog.Waiting.Refinement.{serve_all, ask_all, serve_all-refines}
use telegramshop_zijjn.Tests.{shop}

abbrev shelves : Category
shelves = record { id = 1; name = codes "keys" }

abbrev stocked : Store
stocked = record shop { categories = shelves ∷ [] }

stocked-IsCatalog : IsCatalog stocked
stocked-IsCatalog = record {
  names = λ m. ground arith;
  ids = λ i. ground arith;
  fresh = λ i h. ground arith;
  categories = λ m. ground arith;
  filed = (refl, tt);
  stock = (refl, tt);
  carts = (refl, tt);
  waiting = tt;
}

abbrev year : List Change
year =
    category_created (codes "cards")
    ∷ item_created (codes " card ") [] (pos 500) (codes "cards")
    ∷ value_added (codes "card") (codes "C-1") false
    ∷ item_updated false (codes "key") (codes "card") [] (pos 700) (codes "keys")
    ∷ category_renamed (codes "cards") (codes "keys")
    ∷ category_renamed (codes "cards") (codes "gift cards")
    ∷ item_deleted (codes "key")
    ∷ category_deleted (codes "gift cards")
    ∷ []

year_example : IsCatalog (apply_all year stocked)
year_example = apply_all-IsCatalog year stocked stocked-IsCatalog

abbrev requests : List Request
requests =
    subscribe 7 (codes "key")
    ∷ subscribe 7 (codes "key")
    ∷ subscribe 8 (codes "key")
    ∷ unsubscribe 8 (codes "key")
    ∷ pop (codes "key")
    ∷ pop (codes "key")
    ∷ []

waiting_example :
    ((serve_all requests shop).0 ≡ (ask_all shop requests (waiting shop)).0)
    × (waiting (serve_all requests shop).1 ≡ (ask_all shop requests (waiting shop)).1)
waiting_example =
    serve_all-refines requests shop
      (record { pairs = λ u i. omega arith; ids = λ i. omega arith; fresh = λ i h. refl })
