-- ===== src/Pricing.antt =====
-- bot/database/methods/pricing.py, and `_split_amount` of bot/database/methods/transactions.py.
pub mod Rounding
pub mod Bounds
pub mod Split
use telegramshop_zijjn.Prelude.{
  ℕ, zero, suc, ℤ, pos, negsuc, ◌+◌, ◌-◌, ◌*◌, ◌/◌, ◌%◌, pos_part, ◌-ℤ◌, scale, max_ℤ, min_ℤ, ltb,
  leb, leb_ℤ, ltb_ℤ, ◌==◌, if◌then◌else◌, Bool, true, false, Option, none, some, List, [], ◌∷◌,
  sub_ℕ, ◌||◌, ◌+ℤ◌,
}
use telegramshop_zijjn.Models.{
  Good, Moment, naive, aware, SaleUntil, unset, at, iso, DiscountType, percent, fixed, balance,
}

-- n / d to a whole number, a tie to the even one: what `quantize` does by default.
unfoldable pub round_half_even : ℕ → ℕ → ℕ
round_half_even n d =
    if ltb (2 * (n % d)) d
    then n / d
    else if ltb d (2 * (n % d))
    then n / d + 1
    else n / d + (n / d) % 2

-- `quantize(Decimal("0.01"))` of a / d cents; the sign does not matter to the rounding.
unfoldable pub quantize : ℕ → ℤ → ℤ
quantize d (pos n) = pos (round_half_even n d)
quantize d (negsuc n) = sub_ℕ 0 (round_half_even (suc n) d)

moment_utc : Moment → ℕ
moment_utc (naive t) = t
moment_utc (aware t) = t

unfoldable pub coerce_sale_until : SaleUntil → Option ℕ
unfolding moment_utc
coerce_sale_until unset = none
coerce_sale_until (iso none) = none
coerce_sale_until (iso (some m)) = some (moment_utc m)
coerce_sale_until (at m) = some (moment_utc m)

-- 100 percent, in hundredths of a percent.
abbrev pub full_percent : ℤ
full_percent = pos 10000

-- `base * (1 - pct / 100) * quantity`, in ten-thousandths of a cent.
abbrev pub percent_off : ℤ → ℤ → ℕ → ℤ
percent_off base pct quantity = scale quantity (scale (pos_part (full_percent -ℤ pct)) base)

unfoldable pub apply_promo_discount : ℤ → DiscountType → ℤ → ℕ → ℤ
apply_promo_discount base percent value quantity =
    let pct = min_ℤ (max_ℤ value (pos 0)) full_percent in
    quantize 10000 (max_ℤ (percent_off base pct quantity) (pos 0))
apply_promo_discount base _ value quantity =
    let amount = max_ℤ value (pos 0) in quantize 1 (max_ℤ (scale quantity base -ℤ amount) (pos 0))

-- The price that is charged, whether a sale is on, and the list price.
pub record Quote : Type 0 where
  pub final : ℤ
  pub on_sale : Bool
  pub original : ℤ

abbrev pub regular : ℤ → Quote
regular p = record { final = p; on_sale = false; original = p }

unfoldable pub sale_price : ℤ → ℤ → ℤ
sale_price original pct =
    let cut = min_ℤ pct full_percent in
    let final = quantize 10000 (scale (pos_part (full_percent -ℤ cut)) original) in
    if ltb_ℤ final (pos 0) then pos 0 else final

unfoldable pub quote_at : ℕ → ℤ → Option ℤ → Option ℕ → Quote
quote_at now original none sale_until = regular original
quote_at now original (some pct) none = regular original
quote_at now original (some pct) (some sale_until) =
    if leb sale_until now || leb_ℤ pct (pos 0)
    then regular original
    else record { final = sale_price original pct; on_sale = true; original = original }

unfoldable pub effective_price : Good → ℕ → Quote
effective_price goods now =
    quote_at now goods.price goods.sale_percent (coerce_sale_until goods.sale_until)

-- The shares i, i + 1, … of n, of which the first `extra` get one cent more.
pub shares : ℤ → ℕ → ℕ → ℕ → List ℤ
shares base extra i zero = []
shares base extra i (suc n) =
    (base +ℤ pos (if ltb i extra then 1 else 0)) ∷ shares base extra (suc i) n

-- `divmod(cents, n)` rounds down, below zero too.
pub divmod : ℤ → ℕ → ℤ × ℕ
divmod (pos m) n = (pos (m / n), m % n)
divmod (negsuc m) n = (negsuc (m / n), n - 1 - m % n)

unfoldable pub split_amount : ℤ → ℕ → List ℤ
split_amount total zero = []
split_amount total (suc n) = let (base, extra) = divmod total (suc n) in shares base extra 0 (suc n)
