-- ===== src/Paginator/Pages.antt =====
-- The cache never answers with anything but the page that was asked for.
use telegramshop_zijjn.Prelude.{
  ℕ, ◌-◌, ◌*◌, ◌==◌, ==_refl, ltb, ◌≤◌, ◌≡◌, refl, sym, subst, ap, ◌∙◌, arith, Bool, true, not,
  ◌&&◌, none, some, List, [], ◌∷◌, ◌++◌, length, All, Bool-cases, Option-cases, ◌⊎◌, inl, inr,
}
use telegramshop_zijjn.Prelude.Rows.{All-append}
use telegramshop_zijjn.Paginator.{
  Query, LazyPaginator, cached, get_total_count, get_total_pages, evict, is_near, trim, get_page,
}

same_page : (i j : ℕ) → i == j ≡ true → i ≡ j
same_page i j e = ground arith

module _ {A : Type 0} where
  -- Every cached page is what the query answers for it.
  abbrev pub IsCoherent : Query A → ℕ → List (ℕ × List A) → Type 0
  IsCoherent q per_page = All (λ e. e.1 ≡ q.rows (e.0 * per_page) per_page)

  cached-IsCoherent :
      (q : Query A) (n page : ℕ) (cs : List (ℕ × List A)) {items : List A}
      → IsCoherent q n cs
      → cached page cs ≡ some items
      → items ≡ q.rows (page * n) n
  cached-IsCoherent q n page [] c h = absurd (cc)
  cached-IsCoherent q n page ((i, xs) ∷ cs) {items} c h = elim (Bool-cases (i == page)) [
    | inl e ↦ found (ground arith) (ground arith)
    | inr e ↦ cached-IsCoherent q n page cs c.1 (ground arith)
  ]
    where
      found : i ≡ page → xs ≡ items → items ≡ q.rows (page * n) n
      found e k = rw (← e, ← k) c.0

  evict-IsCoherent :
      (q : Query A) (n limit : ℕ) (keep : ℕ → Bool) (size : ℕ) (cs : List (ℕ × List A))
      → IsCoherent q n cs
      → IsCoherent q n (evict limit keep size cs)
  evict-IsCoherent q n limit keep size [] c = tt
  evict-IsCoherent q n limit keep size ((i, xs) ∷ cs) c =
      elim (Bool-cases (not (keep i) && ltb limit size)) [
        | inl e ↦ rw e (evict-IsCoherent q n limit keep (size - 1) cs c.1)
        | inr e ↦ rw e (c.0, evict-IsCoherent q n limit keep size cs c.1)
      ]

  -- The cache of a paginator is coherent.
  abbrev pub IsPaginator : Query A → LazyPaginator A → Type 0
  IsPaginator q p = IsCoherent q p.per_page p.cache

  total-keeps :
      (q : Query A) (p : LazyPaginator A)
      → ((get_total_pages q p).1.cache ≡ p.cache) × ((get_total_pages q p).1.per_page ≡ p.per_page)
  unfolding get_total_pages get_total_count
  total-keeps q p = elim (Option-cases p.total_count) [
    | inl e ↦ rw (e, get_total_count) (refl, refl)
    | inr (n, e) ↦ rw (e, get_total_count) (refl, refl)
  ]

  trim-IsPaginator :
      (q : Query A) (page : ℕ) (p : LazyPaginator A)
      → IsPaginator q p
      → IsPaginator q (trim q page p)
  unfolding trim
  trim-IsPaginator q page p c = elim (Bool-cases (ltb p.cache_pages (length p.cache))) [
    | inl e ↦
        let (k, l) = total-keeps q p in rw (e, k, l) (evict-IsCoherent q p.per_page _ _ _ p.cache c)
    | inr e ↦ rw e c
  ]

  -- What `get_page` holds before it trims.
  abbrev loaded : Query A → ℕ → LazyPaginator A → LazyPaginator A
  loaded q page p = record p {
    current_page = page;
    cache = p.cache ++ (page, q.rows (page * p.per_page) p.per_page) ∷ [];
  }

  total-loaded :
      (q : Query A) (page : ℕ) (p : LazyPaginator A)
      → (get_total_pages q (loaded q page p)).0 ≡ (get_total_pages q p).0
  unfolding get_total_pages get_total_count
  total-loaded q page p = elim (Option-cases p.total_count) [
    | inl e ↦ rw (e, get_total_count) refl
    | inr (n, e) ↦ rw (e, get_total_count) refl
  ]

  cached-append :
      (page : ℕ) (cs : List (ℕ × List A)) (items : List A)
      → cached page cs ≡ none
      → cached page (cs ++ (page, items) ∷ []) ≡ some items
  cached-append page [] items h = rw (==_refl page) refl
  cached-append page ((i, xs) ∷ cs) items h = elim (Bool-cases (i == page)) [
    | inl e ↦ absurd (ground arith)
    | inr e ↦ rw e (cached-append page cs items (rw e at h))
  ]

  -- A page that is to be kept survives the eviction.
  cached-evict :
      (limit : ℕ) (keep : ℕ → Bool) (size page : ℕ) (cs : List (ℕ × List A)) {items : List A}
      → keep page ≡ true
      → cached page cs ≡ some items
      → cached page (evict limit keep size cs) ≡ some items
  cached-evict limit keep size page [] k h = h
  cached-evict limit keep size page ((i, xs) ∷ cs) k h = elim (Bool-cases (i == page)) [
    | inl e ↦
        let c : keep i ≡ true = subst (λ j. keep j ≡ true) (sym (same_page i page e)) k in
        rw (c, e) (rw e at h)
    | inr e ↦ elim (Bool-cases (not (keep i) && ltb limit size)) [
      | inl d ↦ rw d (cached-evict limit keep (size - 1) page cs k (rw e at h))
      | inr d ↦ rw (d, e) (cached-evict limit keep size page cs k (rw e at h))
    ]
  ]

  trim-cached :
      (q : Query A) (page : ℕ) (p : LazyPaginator A) {items : List A}
      → cached page p.cache ≡ some items
      → (cached page (trim q page p).cache ≡ some items) ⊎ ((get_total_pages q p).0 ≤ page)
  unfolding trim
  trim-cached q page p h = elim (Bool-cases (ltb p.cache_pages (length p.cache))) [
    | inl e ↦ elim (Bool-cases (ltb page (get_total_pages q p).0)) [
      | inl l ↦
          let (k, n) = total-keeps q p in
          inl (rw (e, k) (cached-evict _ _ _ page p.cache (near page _ l) h))
      | inr l ↦ inr (ground arith)
    ]
    | inr e ↦ inl (rw e h)
  ]
    where
      near : (page pages : ℕ) → ltb page pages ≡ true → is_near page pages page ≡ true
      near page pages l = ground arith

  trim-current_page :
      (q : Query A) (page : ℕ) (p : LazyPaginator A) → (trim q page p).current_page ≡ p.current_page
  unfolding trim get_total_pages get_total_count
  trim-current_page q page p = elim (Bool-cases (ltb p.cache_pages (length p.cache))) [
    | inl e ↦ elim (Option-cases p.total_count) [
      | inl k ↦ rw (e, k, get_total_count) refl
      | inr (n, k) ↦ rw (e, k, get_total_count) refl
    ]
    | inr e ↦ rw e refl
  ]

  -- For a query whose rows stay as they are, `get_page` answers with the rows of the page that was
  -- asked for, from the cache or not, records it as the current page, keeps every page in the cache
  -- true, and holds the page in the cache afterwards unless it lies beyond the last one.
  pub get_page-IsPaginator :
      (q : Query A) (page : ℕ) (p : LazyPaginator A)
      → IsPaginator q p
      → ((get_page q page p).0 ≡ q.rows (page * p.per_page) p.per_page)
        × ((get_page q page p).1.current_page ≡ page)
        × IsPaginator q (get_page q page p).1
        × ((cached page (get_page q page p).1.cache ≡ some (q.rows (page * p.per_page) p.per_page))
            ⊎ ((get_total_pages q p).0 ≤ page))
  unfolding get_page
  get_page-IsPaginator q page p c = elim (Option-cases (cached page p.cache)) [
    | inl e ↦
        rw (e, get_page)
          (
            refl,
            trim-current_page q page _,
            trim-IsPaginator q page _ (All-append _ p.cache _ c (refl, tt)),
            elim (trim-cached q page (loaded q page p) (cached-append page p.cache _ e)) [
              | inl k ↦ inl k
              | inr k ↦ inr (subst (λ n. n ≤ page) (total-loaded q page p) k)
            ],
          )
    | inr (items, e) ↦
        let k = cached-IsCoherent q p.per_page page p.cache c e in
        rw (e, get_page) (k, refl, c, inl (e ∙ ap some k))
  ]
