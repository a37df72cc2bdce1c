-- ===== src/Prelude/Members.antt =====
-- The rows of a table that an insertion, an update or a deletion leaves, brings or takes.
use telegramshop_zijjn.Prelude.{
  ◌≤◌, ◌≡◌, ◌⊎◌, refl, sym, ◌∙◌, subst, arith, if◌then◌else◌, ltb, Bool, true, false, some, exists,
  List, [], ◌∷◌, ◌++◌, first, count, update_where, delete_where, In, Bool-cases, inl, inr,
}

module _ {A : Type 0} where
  pub In-append : (xs : List A) (y : A) {a : A} → In a (xs ++ y ∷ []) → In a xs ⊎ (y ≡ a)
  In-append [] y (inl e) = inr e
  In-append [] y (inr e) = absurd e
  In-append (x ∷ xs) y (inl e) = inl (inl e)
  In-append (x ∷ xs) y (inr h) = elim (In-append xs y h) [ inl k ↦ inl (inr k) | inr k ↦ inr k ]

  pub append-In : (xs : List A) (y a : A) → In a xs → In a (xs ++ y ∷ [])
  append-In [] y a h = absurd h
  append-In (x ∷ xs) y a (inl e) = inl e
  append-In (x ∷ xs) y a (inr h) = inr (append-In xs y a h)

  -- A row after an update is an old one, or the update of one.
  pub In-update :
      (q : A → Bool) (f : A → A) (xs : List A) {a : A}
      → In a (update_where q f xs)
      → In a xs ⊎ ((b : A) × In b xs × (f b ≡ a))
  In-update q f [] h = absurd h
  In-update q f (x ∷ xs) (inl e) = elim (Bool-cases (q x)) [
    | inl c ↦ inr (x, inl refl, rw c at e)
    | inr c ↦ inl (inl (rw c at e))
  ]
  In-update q f (x ∷ xs) (inr h) = elim (In-update q f xs h) [
    | inl k ↦ inl (inr k)
    | inr (b, k, e) ↦ inr (b, inr k, e)
  ]

  pub update-In :
      (q : A → Bool) (f : A → A) (xs : List A) {a : A}
      → q a ≡ false
      → In a xs
      → In a (update_where q f xs)
  update-In q f [] n h = absurd h
  update-In q f (x ∷ xs) {a} n (inl e) =
      let c : q x ≡ false = subst (λ y. q y ≡ false) (sym e) n in inl (rw c e)
  update-In q f (x ∷ xs) n (inr h) = inr (update-In q f xs n h)

  pub In-delete : (q : A → Bool) (xs : List A) (a : A) → In a (delete_where q xs) → In a xs
  In-delete q [] a h = absurd h
  In-delete q (x ∷ xs) a h = go (q x) h (In-delete q xs a)
    where
      go :
          (b : Bool)
          → In a (if b then delete_where q xs else x ∷ delete_where q xs)
          → (In a (delete_where q xs) → In a xs)
          → In a (x ∷ xs)
      go true h ih = inr (ih h)
      go false (inl e) ih = inl e
      go false (inr k) ih = inr (ih k)

  pub delete-In :
      (q : A → Bool) (xs : List A) {a : A} → q a ≡ false → In a xs → In a (delete_where q xs)
  delete-In q [] n h = absurd h
  delete-In q (x ∷ xs) {a} n (inl e) =
      let c : q x ≡ false = subst (λ y. q y ≡ false) (sym e) n in rw c (inl e)
  delete-In q (x ∷ xs) {a} n (inr h) = elim (Bool-cases (q x)) [
    | inl c ↦ rw c (delete-In q xs n h)
    | inr c ↦ rw c (inr (delete-In q xs n h))
  ]

  pub first-In : (q : A → Bool) (xs : List A) {a : A} → first q xs ≡ some a → In a xs
  first-In q [] h = absurd (cc)
  first-In q (x ∷ xs) {a} h = elim (Bool-cases (q x)) [
    | inl c ↦ inl (ground arith)
    | inr c ↦ inr (first-In q xs (ground arith))
  ]

  count-In : (q : A → Bool) (xs : List A) {a : A} → q a ≡ true → In a xs → 1 ≤ count q xs
  count-In q [] k h = absurd h
  count-In q (x ∷ xs) k (inl e) = let c = subst (λ y. q y ≡ true) (sym e) k in ground arith
  count-In q (x ∷ xs) k (inr h) = omega (arith, count-In q xs k h)

  -- A row with a key that is given out once is the row that a query for the key finds.
  pub single-In :
      (q : A → Bool) (xs : List A) {a b : A}
      → count q xs ≤ 1
      → first q xs ≡ some b
      → q a ≡ true
      → In a xs
      → a ≡ b
  single-In q [] u f k h = absurd h
  single-In q (x ∷ xs) {a} {b} u f k (inl e) =
      let c = subst (λ y. q y ≡ true) (sym e) k in ground arith
  single-In q (x ∷ xs) {a} {b} u f k (inr h) = elim (Bool-cases (q x)) [
    | inl c ↦ absurd (ground (arith, count-In q xs k h))
    | inr c ↦ single-In q xs (ground arith) (ground arith) k h
  ]

  pub exists-In :
      (q : A → Bool) (xs : List A) → exists q xs ≡ true → (a : A) × In a xs × (q a ≡ true)
  exists-In q [] h = absurd (cc)
  exists-In q (x ∷ xs) h = elim (Bool-cases (q x)) [
    | inl c ↦ (x, inl refl, c)
    | inr c ↦ let r = exists-In q xs (ground arith) in (r.0, inr r.1, r.2)
  ]

  pub In-exists : (q : A → Bool) (xs : List A) {a : A} → q a ≡ true → In a xs → exists q xs ≡ true
  In-exists q [] k h = absurd h
  In-exists q (x ∷ xs) k (inl e) = let c = subst (λ y. q y ≡ true) (sym e) k in ground arith
  In-exists q (x ∷ xs) k (inr h) = ground (arith, In-exists q xs k h)

  -- A key that is given out once names one row.
  pub unique-In :
      (q : A → Bool) (xs : List A) {a b : A}
      → count q xs ≤ 1
      → q a ≡ true
      → q b ≡ true
      → In a xs
      → In b xs
      → a ≡ b
  unique-In q [] u k l h j = absurd h
  unique-In q (x ∷ xs) u k l (inl e) (inl f) = sym e ∙ f
  unique-In q (x ∷ xs) u k l (inl e) (inr j) =
      let c = subst (λ y. q y ≡ true) (sym e) k in absurd (ground (arith, count-In q xs l j))
  unique-In q (x ∷ xs) u k l (inr h) (inl f) =
      let c = subst (λ y. q y ≡ true) (sym f) l in absurd (ground (arith, count-In q xs k h))
  unique-In q (x ∷ xs) u k l (inr h) (inr j) = unique-In q xs (ground arith) k l h j

  pub delete_where-cong :
      (p q : A → Bool) (xs : List A)
      → ((a : A) → In a xs → p a ≡ q a)
      → delete_where p xs ≡ delete_where q xs
  delete_where-cong p q [] h = refl
  delete_where-cong p q (x ∷ xs) h =
      ground (arith, h x (inl refl), delete_where-cong p q xs (λ a i. h a (inr i)))

  -- How often a clause holds, for one that holds at most once.
  pub count-exists :
      (q : A → Bool) (xs : List A) → count q xs ≤ 1 → count q xs ≡ (if exists q xs then 1 else 0)
  count-exists q [] u = refl
  count-exists q (x ∷ xs) u = ground (arith, count-exists q xs)

  pub ltb-count : (q : A → Bool) (xs : List A) → ltb 0 (count q xs) ≡ exists q xs
  ltb-count q [] = refl
  ltb-count q (x ∷ xs) = ground (arith, ltb-count q xs)
