-- ===== src/Prelude/Counts.antt =====
-- How many rows of a table match, after it has changed.
use telegramshop_zijjn.Prelude.{
  ◌+◌, ◌≤◌, ◌≡◌, refl, arith, if◌then◌else◌, Bool, none, some, List, [], ◌∷◌, ◌++◌, first, count,
  update_where, delete_where, Bool-cases, inl, inr,
}

module _ {A : Type 0} where
  pub count-append :
      (p : A → Bool) (xs : List A) (y : A)
      → count p (xs ++ y ∷ []) ≡ count p xs + (if p y then 1 else 0)
  count-append p [] y = omega arith
  count-append p (x ∷ xs) y = omega (arith, count-append p xs y)

  pub count-update :
      (p q : A → Bool) (f : A → A) (xs : List A)
      → ((a : A) → p (f a) ≡ p a)
      → count p (update_where q f xs) ≡ count p xs
  count-update p q f [] h = refl
  count-update p q f (x ∷ xs) h = ground (arith, count-update p q f xs h, h x)

  pub count-delete : (p q : A → Bool) (xs : List A) → count p (delete_where q xs) ≤ count p xs
  count-delete p q [] = omega arith
  count-delete p q (x ∷ xs) = ground (arith, count-delete p q xs)

  pub count-none : (p : A → Bool) (xs : List A) → first p xs ≡ none → count p xs ≡ 0
  count-none p [] h = refl
  count-none p (x ∷ xs) h = ground (arith, count-none p xs)

  update-none : (q : A → Bool) (f : A → A) (xs : List A) → count q xs ≡ 0 → update_where q f xs ≡ xs
  update-none q f [] h = refl
  update-none q f (x ∷ xs) h = ground (arith, update-none q f xs)

  -- An update of the only row with a key moves that row alone.
  pub count-update_one :
      (p q : A → Bool) (f : A → A) (xs : List A) {r : A}
      → count q xs ≤ 1
      → first q xs ≡ some r
      → count p (update_where q f xs) + (if p r then 1 else 0)
        ≡ count p xs + (if p (f r) then 1 else 0)
  count-update_one p q f [] u h = absurd (cc)
  count-update_one p q f (x ∷ xs) {r} u h = elim (Bool-cases (q x)) [
    | inl e ↦ ground (arith, update-none q f xs)
    | inr e ↦ ground (arith, count-update_one p q f xs {r = r})
  ]
