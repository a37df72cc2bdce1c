-- ===== src/Prelude/Rows.antt =====
-- Laws of the row functions: what an update, a deletion or an insertion does to a later query.
use mathlib.Core.Path.{◌≡◌, refl}
use mathlib.Core.Logic.{inl, inr}
use mathlib.Core.Bool.{Bool, true, false, ◌||◌}
use mathlib.Core.List.{List, [], ◌∷◌, ◌++◌}
use mathlib.Core.Option.{none, some}
use native.Mathlib.Omega.{arith}
use telegramshop_zijjn.Prelude.Tests.{Bool-cases, if◌then◌else◌}
use telegramshop_zijjn.Prelude.Lists.{
  first, exists, update_where, delete_where, option_map, or_else, All, In, select_where,
}

module _ {ℓ} {A : Type ℓ} where
  -- The row that a query finds has the property that it asks for.
  pub first-holds : (p : A → Bool) (xs : List A) {a : A} → first p xs ≡ some a → p a ≡ true
  first-holds p [] {a} h = cc
  first-holds p (x ∷ xs) {a} h = ground (arith, first-holds p xs {a = a})

  -- A query for the key that an update keeps finds the updated row.
  pub first-update_self :
      (p : A → Bool) (f : A → A)
      → ((a : A) → p (f a) ≡ p a)
      → (xs : List A) {a : A} → first p xs ≡ some a
      → first p (update_where p f xs) ≡ some (f a)
  first-update_self p f keep [] {a} h = cc
  first-update_self p f keep (x ∷ xs) {a} h =
      ground (arith, keep x, first-update_self p f keep xs {a = a})

  -- A query for another key is not touched.
  pub first-update_other :
      (p q : A → Bool) (f : A → A)
      → ((a : A) → q (f a) ≡ q a)
      → ((a : A) → p a ≡ true → q a ≡ false)
      → (xs : List A) → first q (update_where p f xs) ≡ first q xs
  first-update_other p q f keep apart [] = refl
  first-update_other p q f keep apart (x ∷ xs) =
      ground (arith, keep x, apart x, first-update_other p q f keep apart xs)

  pub exists-append :
      (p : A → Bool) (xs ys : List A) → exists p (xs ++ ys) ≡ (exists p xs || exists p ys)
  exists-append p [] ys = refl
  exists-append p (x ∷ xs) ys = ground (arith, exists-append p xs ys)

  pub All-append {κ} : (P : A → Type κ) (xs ys : List A) → All P xs → All P ys → All P (xs ++ ys)
  All-append P [] ys h k = k
  All-append P (x ∷ xs) ys h k = (h.0, All-append P xs ys h.1 k)

  pub All-delete {κ} :
      (P : A → Type κ) (p : A → Bool) (xs : List A) → All P xs → All P (delete_where p xs)
  All-delete P p [] h = h
  All-delete P p (x ∷ xs) h = ground (arith, All-delete P p xs h.1)

  pub All-update {κ} :
      (P : A → Type κ) (p : A → Bool) (f : A → A)
      → ((a : A) → P a → p a ≡ true → P (f a))
      → (xs : List A) → All P xs
      → All P (update_where p f xs)
  All-update P p f step [] h = h
  All-update P p f step (x ∷ xs) h = (ground (arith, step x h.0), All-update P p f step xs h.1)

-- What a query finds after an update of other or the same rows, for a key that the update keeps.
pub first-update :
    {A : Type 0} (p q : A → Bool) (f : A → A)
    → ((a : A) → q (f a) ≡ q a)
    → (xs : List A)
    → first q (update_where p f xs) ≡ option_map (λ a. if p a then f a else a) (first q xs)
first-update p q f keep [] = refl
first-update p q f keep (x ∷ xs) = ground (arith, keep x, first-update p q f keep xs)

-- A row that is added is found only if no row was.
pub first-append :
    {A : Type 0} (p : A → Bool) (xs : List A) (x : A)
    → first p (xs ++ x ∷ []) ≡ or_else (first p xs) (if p x then some x else none)
first-append p [] x = refl
first-append p (y ∷ xs) x = ground (arith, first-append p xs x)

-- A row that a query returns is in the table and meets the clause.
pub select-In :
    {A : Type 0} (p : A → Bool) (xs : List A) {a : A}
    → In a (select_where p xs)
    → In a xs × (p a ≡ true)
select-In p [] h = absurd h
select-In p (x ∷ xs) {a} h = elim (Bool-cases (p x)) [
  | inl e ↦ elim (rw e at h) [
    | inl i ↦ (inl i, rw (← i) e)
    | inr i ↦ (inr (select-In p xs i).0, (select-In p xs i).1)
  ]
  | inr e ↦ let i = select-In p xs (rw e at h) in (inr i.0, i.1)
]
