-- ===== src/Catalog/References.antt =====
-- Rows that refer to a product, and what a change of the products leaves of that.
use telegramshop_zijjn.Prelude.{
  ℕ, ◌≡◌, refl, arith, Bool, true, false, ◌&&◌, none, some, List, [], ◌∷◌, first, exists, count,
  update_where, delete_where, All, Bool-cases, inl, inr,
}
use telegramshop_zijjn.Models.{Good}
use telegramshop_zijjn.Catalog.{has_id}

-- Each row refers to a product that is there.
abbrev pub Filed : {A : Type 0} → (A → ℕ) → List A → List Good → Type 0
Filed key rows goods = All (λ a. exists (has_id (key a)) goods ≡ true) rows

pub All-mono :
    {A : Type 0} (P Q : A → Type 0) (xs : List A) → ((a : A) → P a → Q a) → All P xs → All Q xs
All-mono P Q [] f h = tt
All-mono P Q (x ∷ xs) f h = (f x h.0, All-mono P Q xs f h.1)

pub Filed-mono :
    {A : Type 0} (key : A → ℕ) (rows : List A) (before after : List Good)
    → ((i : ℕ) → exists (has_id i) before ≡ true → exists (has_id i) after ≡ true)
    → Filed key rows before
    → Filed key rows after
Filed-mono key rows before after f h = All-mono _ _ rows (λ a. f (key a)) h

-- What refers to a product that goes is deleted with it.
pub Filed-delete :
    {A : Type 0} (key : A → ℕ) (goes : ℕ → Bool) (rows : List A) (before after : List Good)
    → ((i : ℕ) → exists (has_id i) before ≡ true → goes i ≡ false → exists (has_id i) after ≡ true)
    → Filed key rows before
    → Filed key (delete_where (λ a. goes (key a)) rows) after
Filed-delete key goes [] before after f h = tt
Filed-delete key goes (x ∷ xs) before after f h = elim (Bool-cases (goes (key x))) [
  | inl e ↦ rw e (Filed-delete key goes xs before after f h.1)
  | inr e ↦ rw e (f (key x) h.0 e, Filed-delete key goes xs before after f h.1)
]

module _ {A : Type 0} where
  pub exists-first :
      (p q : A → Bool) (xs : List A) {a : A} → first q xs ≡ some a → p a ≡ true → exists p xs ≡ true
  exists-first p q [] h k = absurd (cc)
  exists-first p q (x ∷ xs) {a} h k = ground (arith, exists-first p q xs {a = a})

  pub exists-update :
      (p q : A → Bool) (f : A → A) (xs : List A)
      → ((a : A) → p (f a) ≡ p a)
      → exists p (update_where q f xs) ≡ exists p xs
  exists-update p q f [] k = refl
  exists-update p q f (x ∷ xs) k = ground (arith, exists-update p q f xs k, k x)

  pub exists-count : (p : A → Bool) (xs : List A) → exists p xs ≡ false → count p xs ≡ 0
  exists-count p [] h = refl
  exists-count p (x ∷ xs) h = ground (arith, exists-count p xs)

  pub none-exists : (p : A → Bool) (xs : List A) → first p xs ≡ none → exists p xs ≡ false
  none-exists p [] h = refl
  none-exists p (x ∷ xs) h = ground (arith, none-exists p xs)

  -- A row that a deletion does not meet is still found.
  pub exists-keep :
      (p q : A → Bool) (xs : List A)
      → ((a : A) → p a ≡ true → q a ≡ false)
      → exists p xs ≡ true
      → exists p (delete_where q xs) ≡ true
  exists-keep p q [] n h = h
  exists-keep p q (x ∷ xs) n h = ground (arith, n x, exists-keep p q xs n)

  pub exists-apart :
      (p q : A → Bool) (xs : List A)
      → exists (λ x. p x && q x) xs ≡ false
      → exists p xs ≡ true
      → exists p (delete_where q xs) ≡ true
  exists-apart p q [] n h = h
  exists-apart p q (x ∷ xs) n h = ground (arith, exists-apart p q xs)
