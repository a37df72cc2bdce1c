-- ===== src/Pricing/Rounding.antt =====
-- `quantize` rounds to a nearest cent, and keeps the order against whole cents.
use telegramshop_zijjn.Prelude.{ℕ, ◌+◌, ◌*◌, ◌≤◌, ◌≡◌, arith, pos, ◌≤ℤ◌}
use telegramshop_zijjn.Pricing.{round_half_even, quantize}

-- The rounding error is at most half a unit, both ways.
pub round_half_even_nearest :
    (n : ℕ)
    → (20000 * round_half_even n 10000 ≤ 2 * n + 10000)
      × (2 * n ≤ 20000 * round_half_even n 10000 + 10000)
unfolding round_half_even
round_half_even_nearest n = ground arith

pub round_half_even-le : (n m : ℕ) → n ≤ m * 10000 → round_half_even n 10000 ≤ m
round_half_even-le n m h = omega (arith, round_half_even_nearest n)

pub round_half_even_whole : (m : ℕ) → round_half_even m 1 ≡ m
unfolding round_half_even
round_half_even_whole m = ground arith

hundredths : (n : ℕ) → 200 * round_half_even n 100 ≤ 2 * n + 100
unfolding round_half_even
hundredths n = ground arith

-- The same bound for a quotient by one hundred.
pub quantize_hundredths-le : (n m : ℕ) → n ≤ m * 100 → quantize 100 (pos n) ≤ℤ pos m
unfolding quantize
quantize_hundredths-le n m h = omega (arith, hundredths n)

pub quantize_nonneg : (d n : ℕ) → pos 0 ≤ℤ quantize d (pos n)
unfolding quantize
quantize_nonneg d n = omega arith
