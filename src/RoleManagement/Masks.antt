-- ===== src/RoleManagement/Masks.antt =====
-- The two operations on masks of `_toggle_perm` in role_management.py: `(bit & caller) == bit` and
-- `current ^= bit`, for a payload that may be any integer.
use telegramshop_zijjn.Prelude.{
  ℕ, zero, suc, ◌+◌, ◌*◌, ◌/◌, ◌%◌, ◌≡◌, refl, ◌∙◌, subst, arith, Bool, true, false, ◌==◌, ◌⊎◌, inl,
  inr, ℤ, pos, negsuc,
}
use telegramshop_zijjn.Models.Permission.{and_digits, mask_and}
use telegramshop_zijjn.Models.Permission.Bits.{has_bit, has_bit-zero, Within, and_digits-Within}

pub xor_digits : ℕ → ℕ → ℕ → ℕ
xor_digits zero a b = 0
xor_digits (suc n) a b = 2 * xor_digits n (a / 2) (b / 2) + (a % 2 + b % 2) % 2

-- `a ^ b`: no digit of either is beyond a + b.
unfoldable pub mask_xor : ℕ → ℕ → ℕ
unfolding xor_digits
mask_xor a b = xor_digits (a + b) a b

-- A negative number has infinitely many ones, and no mask covers it.
unfoldable pub covers : ℤ → ℕ → Bool
covers (pos bit) caller = mask_and bit caller == bit
covers (negsuc n) caller = false

unfoldable pub toggle : ℕ → ℤ → ℕ
toggle current (pos bit) = mask_xor current bit
toggle current (negsuc n) = current

and_digits_comm : (n a b : ℕ) → and_digits n a b ≡ and_digits n b a
unfolding and_digits
and_digits_comm zero a b = refl
and_digits_comm (suc n) a b = grind (arith, and_digits_comm n (a / 2) (b / 2))

-- A bit that a caller covers is the caller's.
pub covers-Within : (bit caller : ℕ) → covers (pos bit) caller ≡ true → Within bit caller
unfolding covers mask_and
covers-Within bit caller h =
    and_digits-Within bit caller bit (and_digits_comm bit caller bit ∙ equal)
  where
    equal : and_digits bit bit caller ≡ bit
    equal = ground arith

xor_digits-bit :
    (i n a b : ℕ)
    → has_bit i (xor_digits n a b) ≡ true
    → (has_bit i a ≡ true) ⊎ (has_bit i b ≡ true)
unfolding xor_digits has_bit
xor_digits-bit zero zero a b h = absurd (cc)
xor_digits-bit zero (suc n) a b h = ground arith
xor_digits-bit (suc i) zero a b h = absurd (has_bit-zero i 0 (omega arith) h)
xor_digits-bit (suc i) (suc n) a b h =
    xor_digits-bit i n (a / 2) (b / 2) (subst (λ k. has_bit i k ≡ true) (omega arith) h)

-- Toggling a bit that the caller covers stays within the caller's permissions.
pub toggle-Within :
    (current caller : ℕ) (bit : ℤ)
    → covers bit caller ≡ true
    → Within current caller
    → Within (toggle current bit) caller
unfolding toggle mask_xor
toggle-Within current caller (negsuc n) c w = w
toggle-Within current caller (pos bit) c w =
    λ i h. go i (xor_digits-bit i (current + bit) current bit h)
  where
    go : (i : ℕ) → (has_bit i current ≡ true) ⊎ (has_bit i bit ≡ true) → has_bit i caller ≡ true
    go i (inl k) = w i k
    go i (inr k) = covers-Within bit caller c i k
