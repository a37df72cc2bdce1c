-- ===== src/Pricing/Split.antt =====
-- `_split_amount` loses no cent, and its shares differ by one cent at most.
use native.Mathlib.Nat.{div-add-mod, mod-lt}
use telegramshop_zijjn.Prelude.{
  ℕ, zero, suc, ◌+◌, ◌*◌, ◌-◌, ◌/◌, ◌≤◌, ◌<◌, ◌≡◌, refl, ◌∙◌, arith, ℤ, pos, negsuc, ◌+ℤ◌, ◌≤ℤ◌,
  scale, pos_part, neg_part, List, [], ◌∷◌, length, All, int_laws, min, ap,
}
use telegramshop_zijjn.Pricing.{shares, divmod, split_amount}

abbrev pub sum_ℤ : List ℤ → ℤ
sum_ℤ [] = pos 0
sum_ℤ (x ∷ xs) = x +ℤ sum_ℤ xs

scale_parts :
    (k : ℕ) (a : ℤ) → pos_part (scale k a) + k * neg_part a ≡ neg_part (scale k a) + k * pos_part a
unfolding scale
scale_parts k a = ground arith

shares-sum :
    (base : ℤ) (extra i n : ℕ)
    → sum_ℤ (shares base extra i n) ≡ scale n base +ℤ pos (min n (extra - i))
unfolding shares
shares-sum base extra i zero = omega (int_laws, scale_parts 0 base)
shares-sum base extra i (suc n) =
    grind (int_laws, scale_parts n base, scale_parts (suc n) base, shares-sum base extra (suc i) n)

divmod_lem : (t : ℤ) (n : ℕ) → scale (suc n) (divmod t (suc n)).0 +ℤ pos (divmod t (suc n)).1 ≡ t
unfolding divmod
divmod_lem (pos m) n =
    omega (int_laws, scale_parts (suc n) (pos (m / suc n)), div-add-mod m (suc n))
divmod_lem (negsuc m) n = omega (
  int_laws,
  scale_parts (suc n) (negsuc (m / suc n)),
  div-add-mod m (suc n),
  mod-lt m {m = suc n} (omega arith),
)

divmod_lt : (t : ℤ) (n : ℕ) → (divmod t (suc n)).1 < suc n
unfolding divmod
divmod_lt (pos m) n = mod-lt m (omega arith)
divmod_lt (negsuc m) n = omega arith

min_extra : (n e : ℕ) → e < suc n → min (suc n) (e - 0) ≡ e
min_extra n e h = omega arith

pub split_amount-sum : (total : ℤ) (n : ℕ) → 1 ≤ n → sum_ℤ (split_amount total n) ≡ total
unfolding split_amount
split_amount-sum t zero h = absurd (omega arith)
split_amount-sum t (suc n) h =
    shares-sum (divmod t (suc n)).0 (divmod t (suc n)).1 0 (suc n)
    ∙ rw (min_extra n (divmod t (suc n)).1 (divmod_lt t n)) (divmod_lem t n)

shares-length : (base : ℤ) (extra i n : ℕ) → length (shares base extra i n) ≡ n
unfolding shares
shares-length base extra i zero = refl
shares-length base extra i (suc n) = ap suc (shares-length base extra (suc i) n)

pub split_amount-length : (total : ℤ) (n : ℕ) → length (split_amount total n) ≡ n
unfolding split_amount
split_amount-length t zero = refl
split_amount-length t (suc n) = shares-length (divmod t (suc n)).0 (divmod t (suc n)).1 0 (suc n)

-- Every share is `low` or one cent more.
abbrev pub NearlyEqual : ℤ → List ℤ → Type 0
NearlyEqual low = All (λ x. (low ≤ℤ x) × (x ≤ℤ low +ℤ pos 1))

shares-NearlyEqual : (base : ℤ) (extra i n : ℕ) → NearlyEqual base (shares base extra i n)
unfolding shares
shares-NearlyEqual base extra i zero = tt
shares-NearlyEqual base extra i (suc n) = (grind int_laws, shares-NearlyEqual base extra (suc i) n)

-- The shares of n > 0 units add up to the total again, there is one for every unit, and they differ
-- by one cent at most.
pub split_amount_lem :
    (total : ℤ) (n : ℕ)
    → 1 ≤ n
    → (sum_ℤ (split_amount total n) ≡ total)
      × (length (split_amount total n) ≡ n)
      × NearlyEqual (divmod total n).0 (split_amount total n)
unfolding split_amount
split_amount_lem t zero h = absurd (omega arith)
split_amount_lem t (suc n) h =
    (split_amount-sum t (suc n) h, split_amount-length t (suc n), shares-NearlyEqual _ _ 0 (suc n))
