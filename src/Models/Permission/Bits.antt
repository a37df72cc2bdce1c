-- ===== src/Models/Permission/Bits.antt =====
-- What the tests on masks mean for the single permissions.
use telegramshop_zijjn.Prelude.{
  ℕ, zero, suc, ◌+◌, ◌-◌, ◌*◌, ◌/◌, ◌%◌, ◌≤◌, ◌≡◌, ◌≢◌, ◌↔◌, refl, subst, arith, Bool, true, ◌==◌,
  inl, inr, Bool-cases,
}
use telegramshop_zijjn.Models.Permission.{
  and_digits, clear_digits, mask_and, mask_without, is_subset, granted,
}

-- The i-th permission is in the mask.
unfoldable pub has_bit : ℕ → ℕ → Bool
has_bit zero mask = mask % 2 == 1
has_bit (suc i) mask = has_bit i (mask / 2)

-- Each permission of the first mask is in the second.
abbrev pub Within : ℕ → ℕ → Type 0
Within perms of = (i : ℕ) → has_bit i perms ≡ true → has_bit i of ≡ true

pub has_bit-zero : (i a : ℕ) → a ≤ 0 → has_bit i a ≢ true
unfolding has_bit
has_bit-zero zero a h = ground arith
has_bit-zero (suc i) a h = has_bit-zero i (a / 2) (omega (arith, h))

product-zero : (x y : ℕ) → x * y ≡ 0 → x ≡ 1 → y ≡ 0
product-zero x y h e = omega (arith, one y (subst (λ k. k * y ≡ 0) e h))
  where
    one : (y : ℕ) → 1 * y ≡ 0 → y ≡ 0
    one y h = omega (arith, h)

clear_digits-Within : (n a b : ℕ) → a ≤ n → clear_digits n a b ≡ 0 → Within a b
unfolding clear_digits has_bit
clear_digits-Within zero a b h e zero k = absurd (has_bit-zero 0 a h k)
clear_digits-Within (suc n) a b h e zero k =
    let q : (a % 2) * (1 - b % 2) ≡ 0 = omega (arith, e) in
    let p : a % 2 ≡ 1 = ground arith in let z = product-zero (a % 2) (1 - b % 2) q p in ground arith
clear_digits-Within zero a b h e (suc i) k = absurd (has_bit-zero (suc i) a h k)
clear_digits-Within (suc n) a b h e (suc i) k =
    clear_digits-Within n (a / 2) (b / 2) (omega (arith, h)) (omega (arith, e)) i k

Within-clear_digits : (n a b : ℕ) → Within a b → clear_digits n a b ≡ 0
unfolding clear_digits has_bit
Within-clear_digits zero a b w = refl
Within-clear_digits (suc n) a b w =
    let ih = Within-clear_digits n (a / 2) (b / 2) (λ i. w (suc i)) in
    let low = w 0 in
    elim (Bool-cases (a % 2 == 1)) [
      | inl e ↦ let k = low e in let z : 1 - b % 2 ≡ 0 = ground arith in rw (ih, z) (omega arith)
      | inr e ↦ let z : a % 2 ≡ 0 = ground arith in rw (ih, z) (omega arith)
    ]

and_digits-parts :
    (n a b : ℕ)
    → and_digits (suc n) a b ≡ b
    → (and_digits n (a / 2) (b / 2) ≡ b / 2) × (b % 2 ≡ 1 → a % 2 ≡ 1)
unfolding and_digits
and_digits-parts n a b e = elim (Bool-cases (a % 2 == 1)) [
  | inl c ↦
      let z : a % 2 ≡ 1 = ground arith in
      let q : 2 * and_digits n (a / 2) (b / 2) + 1 * (b % 2) ≡ b =
        subst (λ k. 2 * and_digits n (a / 2) (b / 2) + k * (b % 2) ≡ b) z e in
      (omega (arith, q), λ _. z)
  | inr c ↦
      let z : a % 2 ≡ 0 = ground arith in
      let q : 2 * and_digits n (a / 2) (b / 2) + 0 * (b % 2) ≡ b =
        subst (λ k. 2 * and_digits n (a / 2) (b / 2) + k * (b % 2) ≡ b) z e in
      (omega (arith, q), λ o. absurd (omega (arith, q, o)))
]

pub and_digits-Within : (n a b : ℕ) → and_digits n a b ≡ b → Within b a
unfolding and_digits has_bit
and_digits-Within zero a b e i k = absurd (has_bit-zero i b (omega (arith, e)) k)
and_digits-Within (suc n) a b e zero k =
    let z = (and_digits-parts n a b e).1 (ground arith) in ground arith
and_digits-Within (suc n) a b e (suc i) k =
    and_digits-Within n (a / 2) (b / 2) (and_digits-parts n a b e).0 i k

-- A permission check passes only for a mask with each of the permissions that it asks for.
pub granted-Within : (perms bit : ℕ) → granted perms bit ≡ true → Within bit perms
unfolding granted mask_and
granted-Within perms bit e = and_digits-Within perms perms bit (ground arith)

-- A mask is a subset of another exactly when each of its permissions is in the other.
pub is_subset-Within : (perms of : ℕ) → is_subset perms of ≡ true ↔ Within perms of
unfolding is_subset mask_without
is_subset-Within perms of = (
  λ e. clear_digits-Within perms perms of (omega arith) (ground arith),
  λ w. ground (arith, Within-clear_digits perms perms of w),
)
