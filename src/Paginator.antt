-- ===== src/Paginator.antt =====
-- `LazyPaginator` of bot/misc/lazy_paginator.py: pages of a query, the last ones in a cache.
pub mod Pages
use telegramshop_zijjn.Prelude.{
  ℕ, zero, suc, ◌+◌, ◌-◌, ◌*◌, ◌/◌, ◌==◌, ltb, leb, min, max, if◌then◌else◌, Bool, true, false, not,
  ◌&&◌, ◌||◌, Option, none, some, List, [], ◌∷◌, ◌++◌, length, take, drop,
}

-- `query_func`: the rows from an offset, at most so many, and their number.
pub record Query (A : Type 0) : Type 0 where
  pub rows : ℕ → ℕ → List A
  pub total : ℕ

-- The cache keeps its keys in the order of insertion.
pub record LazyPaginator (A : Type 0) : Type 0 where
  pub per_page : ℕ
  pub cache_pages : ℕ
  pub cache : List (ℕ × List A)
  pub total_count : Option ℕ
  pub current_page : ℕ

pub pages_for : ℕ → ℕ → ℕ
pages_for total per_page = max 1 ((total + per_page - 1) / per_page)

-- `range(max(0, page - 1), min(page + 2, total_pages))`
abbrev pub is_near : ℕ → ℕ → ℕ → Bool
is_near page total_pages i = leb (page - 1) i && ltb i (min (page + 2) total_pages)

module _ {A : Type 0} where
  abbrev pub cached : ℕ → List (ℕ × List A) → Option (List A)
  cached page [] = none
  cached page ((i, items) ∷ rest) = if i == page then some items else cached page rest

  -- The count is asked for once.
  pub get_total_count : Query A → LazyPaginator A → ℕ × LazyPaginator A
  get_total_count q p = elim p.total_count [
    | some n ↦ (n, p)
    | none ↦ (q.total, record p { total_count = some q.total })
  ]

  pub get_total_pages : Query A → LazyPaginator A → ℕ × LazyPaginator A
  get_total_pages q p = let (total, p2) = get_total_count q p in (pages_for total p.per_page, p2)

  -- The loop over the keys: `size` is what the cache holds when the key is looked at.
  abbrev pub evict : ℕ → (ℕ → Bool) → ℕ → List (ℕ × List A) → List (ℕ × List A)
  evict limit keep size [] = []
  evict limit keep size ((i, items) ∷ rest) =
      let kept = evict limit keep size rest in
      let fewer = evict limit keep (size - 1) rest in
      if not (keep i) && ltb limit size then fewer else (i, items) ∷ kept

  pub trim : Query A → ℕ → LazyPaginator A → LazyPaginator A
  trim q page p =
      if ltb p.cache_pages (length p.cache)
      then (let (pages, p2) = get_total_pages q p in
          record p2 {
            cache = evict p2.cache_pages (is_near page pages) (length p2.cache) p2.cache;
          })
      else p

  abbrev pub load : Query A → ℕ → LazyPaginator A → List A × LazyPaginator A
  load q page p =
      let items = q.rows (page * p.per_page) p.per_page in
      (items, trim q page (record p { cache = p.cache ++ (page, items) ∷ [] }))

  pub get_page : Query A → ℕ → LazyPaginator A → List A × LazyPaginator A
  get_page q page p = elim (cached page p.cache) [
    | some items ↦ (items, record p { current_page = page })
    | none ↦ load q page (record p { current_page = page })
  ]

  unfoldable pub clear_cache : LazyPaginator A → LazyPaginator A
  clear_cache p = record p { cache = []; total_count = none }
