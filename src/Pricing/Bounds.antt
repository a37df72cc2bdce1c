-- ===== src/Pricing/Bounds.antt =====
-- Prices stay between zero and the list price, whatever discount is entered.
use telegramshop_zijjn.Prelude.{
  ℕ, ◌*◌, ◌≤◌, ◌≡◌, ◌-◌, arith, ℤ, pos, negsuc, ◌≤ℤ◌, pos_part, ◌-ℤ◌, scale, max_ℤ, min_ℤ, Option,
  some, none,
}
use telegramshop_zijjn.Models.{Good, DiscountType, percent, fixed, balance}
use telegramshop_zijjn.Pricing.{
  round_half_even, quantize, apply_promo_discount, sale_price, quote_at, effective_price,
  full_percent, coerce_sale_until,
}
use telegramshop_zijjn.Pricing.Rounding.{round_half_even-le, round_half_even_whole}

scale_le : (k m b : ℕ) → k ≤ m → k * b ≤ m * b
scale_le k m b h = grind arith

scale_le2 : (q k m : ℕ) → k ≤ m → q * k ≤ q * m
scale_le2 q k m h = grind arith

pub scale-pos : (k b : ℕ) → scale k (pos b) ≡ pos (k * b)
unfolding scale
scale-pos k b = ground arith

-- A factor of at most one, in ten-thousandths, does not raise a price.
quantize-scale-le : (k b m : ℕ) → k ≤ 10000 → b ≤ m → round_half_even (k * b) 10000 ≤ m
quantize-scale-le k b m h l = round_half_even-le (k * b) m (grind arith)

abbrev pub InRange : ℤ → ℤ → Type 0
InRange m x = (pos 0 ≤ℤ x) × (x ≤ℤ m)

-- The factor that is left of a percentage is between nothing and the whole.
factor_le : (pct : ℤ) → pos 0 ≤ℤ pct → pos_part (full_percent -ℤ pct) ≤ 10000
unfolding ◌-ℤ◌
factor_le pct h = ground arith

clamp_nonneg : (v : ℤ) → pos 0 ≤ℤ min_ℤ (max_ℤ v (pos 0)) full_percent
unfolding min_ℤ max_ℤ
clamp_nonneg v = ground arith

-- `quantize` of a price that a factor of at most one has cut.
quantize_cut_range : (k b : ℕ) → k ≤ 10000 → InRange (pos b) (quantize 10000 (scale k (pos b)))
unfolding quantize
quantize_cut_range k b h =
    rw (scale-pos k b) (omega arith, omega (arith, quantize-scale-le k b b h (omega arith)))

min_full_nonneg : (pct : ℤ) → pos 0 ≤ℤ pct → pos 0 ≤ℤ min_ℤ pct full_percent
unfolding min_ℤ
min_full_nonneg pct h = ground arith

-- A sale price lies between zero and the list price, for every percentage.
pub sale_price_range : (p : ℕ) (pct : ℤ) → pos 0 ≤ℤ pct → InRange (pos p) (sale_price (pos p) pct)
unfolding sale_price
sale_price_range p pct h =
    let r = quantize_cut_range _ p (factor_le _ (min_full_nonneg pct h)) in ground (arith, r)

quote_range :
    (now : ℕ) (p : ℤ) (pct : Option ℤ) (sale_until : Option ℕ)
    → pos 0 ≤ℤ p
    → InRange p (quote_at now p pct sale_until).final
unfolding quote_at
quote_range now p none u h = (h, omega arith)
quote_range now p (some pct) none h = (h, omega arith)
quote_range now (pos p) (some pct) (some u) h = ground (arith, sale_price_range p pct)
quote_range now (negsuc p) (some pct) (some u) h = absurd (omega arith)

-- The charged price of a product with a price of zero or more lies between zero and that price.
pub effective_price_range :
    (g : Good) (now : ℕ) → pos 0 ≤ℤ g.price → InRange g.price (effective_price g now).final
unfolding effective_price
effective_price_range g now h =
    quote_range now g.price g.sale_percent (coerce_sale_until g.sale_until) h

mul_cut : (q k b : ℕ) → k ≤ 10000 → q * (k * b) ≤ (q * b) * 10000
mul_cut q k b h = let l = scale_le k 10000 b h in grind (arith, scale_le2 q (k * b) (10000 * b) l)

max_zero-pos : (n : ℕ) → max_ℤ (pos n) (pos 0) ≡ pos n
unfolding max_ℤ
max_zero-pos n = ground arith

max_zero_nonneg : (v : ℤ) → pos 0 ≤ℤ max_ℤ v (pos 0)
unfolding max_ℤ
max_zero_nonneg v = ground arith

percent_line_range :
    (k b q : ℕ)
    → k ≤ 10000
    → InRange (pos (q * b)) (quantize 10000 (max_ℤ (scale q (scale k (pos b))) (pos 0)))
unfolding quantize
percent_line_range k b q h =
    rw (scale-pos k b, scale-pos q (k * b), max_zero-pos (q * (k * b)))
      (omega arith, omega (arith, round_half_even-le (q * (k * b)) (q * b) (mul_cut q k b h)))

-- Taking an amount of zero or more off a line.
pub fixed_line :
    (n : ℕ) (a : ℤ) → pos 0 ≤ℤ a → quantize 1 (max_ℤ (pos n -ℤ a) (pos 0)) ≡ pos (n - pos_part a)
unfolding quantize max_ℤ ◌-ℤ◌
fixed_line n (pos a) h = ground (arith, round_half_even_whole (n - a), round_half_even_whole 0)
fixed_line n (negsuc a) h = absurd (omega arith)

flat_line_range :
    (b : ℕ) (v : ℤ) (q : ℕ)
    → InRange (pos (q * b)) (quantize 1 (max_ℤ (scale q (pos b) -ℤ max_ℤ v (pos 0)) (pos 0)))
flat_line_range b v q =
    rw (scale-pos q b, fixed_line (q * b) (max_ℤ v (pos 0)) (max_zero_nonneg v))
      (omega arith, omega arith)

-- A discounted line lies between zero and the undiscounted line, whatever value was entered.
pub apply_promo_discount_range :
    (base : ℕ) (t : DiscountType) (value : ℤ) (quantity : ℕ)
    → InRange (pos (quantity * base)) (apply_promo_discount (pos base) t value quantity)
unfolding apply_promo_discount
apply_promo_discount_range b percent v q = percent_line_range _ b q (factor_le _ (clamp_nonneg v))
apply_promo_discount_range b fixed v q = flat_line_range b v q
apply_promo_discount_range b balance v q = flat_line_range b v q
