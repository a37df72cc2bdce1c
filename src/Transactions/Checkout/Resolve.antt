-- ===== src/Transactions/Checkout/Resolve.antt =====
-- The first half of `checkout_cart_transaction`: each line of the cart gets its stock, its price and
-- its promo code.
pub mod Totals
use telegramshop_zijjn.Prelude.{
  ℕ, zero, suc, ◌==◌, if◌then◌else◌, Bool, true, false, Option, none, some, List, [], ◌∷◌, ◌++◌, ℤ,
  pos, negsuc, ◌+ℤ◌, scale, first, exists, Text,
}
use telegramshop_zijjn.Models.{Good, ItemValue, CartItem, PromoCode}
use telegramshop_zijjn.Pricing.{effective_price, apply_promo_discount, split_amount}
use telegramshop_zijjn.Promo.{RuleError, promo_rule_error, find_promo, has_promo_id}
use telegramshop_zijjn.Store.{
  Store, Result, ok, err, abort, promo_expired_during_checkout, ◌>>=◌, ◌>>◌, or_abort,
}
use telegramshop_zijjn.Transactions.Fulfil.{Delivery, Claim, fulfil}

abbrev pub eq_ℤ : ℤ → ℤ → Bool
eq_ℤ (pos m) (pos n) = m == n
eq_ℤ (negsuc m) (negsuc n) = m == n
eq_ℤ _ _ = false

abbrev pub is_line_of : ℕ → CartItem → Bool
is_line_of user_id ci = ci.user_id == user_id

abbrev pub has_good_id : ℕ → Good → Bool
has_good_id i g = g.id == i

-- An entry of `purchases`.
pub record Line : Type 0 where
  pub goods : Good
  pub deliveries : List Delivery
  pub values_to_delete : List ItemValue
  pub unit_prices : List ℤ

-- The variables of the loop over the cart.
pub record Progress : Type 0 where
  pub purchases : List Line
  pub total_price : ℤ
  pub items_to_remove : List ℕ
  pub promos_to_record : List PromoCode
  pub db : Store

abbrev pub start : Store → Progress
start db = record {
  purchases = [];
  total_price = pos 0;
  items_to_remove = [];
  promos_to_record = [];
  db = db;
}

-- `promos_to_record[promo.id] = promo`
abbrev pub set_promo : PromoCode → List PromoCode → List PromoCode
set_promo p ps = if exists (has_promo_id p.id) ps then ps else ps ++ p ∷ []

abbrev or_rule : Option RuleError → Result (Unit {0})
or_rule none = ok tt
or_rule (some e) = err (abort promo_expired_during_checkout)

-- The price of a line and the promos to record, with its code applied. Prices have two decimals, so
-- `(price * qty).quantize(...)` rounds nothing.
pub price_line :
    ℕ → ℕ → Good → ℕ → Option Text → List PromoCode → Store → Result (ℤ × List PromoCode)
price_line now user_id goods qty none promos db =
    ok (scale qty (effective_price goods now).final, promos)
price_line now user_id goods qty (some []) promos db =
    ok (scale qty (effective_price goods now).final, promos)
price_line now user_id goods qty (some (c ∷ code)) promos db = do
  or_rule (promo_rule_error db now (find_promo (c ∷ code) db) user_id (some goods) false)
  promo ← or_abort (find_promo (c ∷ code) db) promo_expired_during_checkout
  ok (
    apply_promo_discount (effective_price goods now).final promo.discount_type promo.discount_value
        qty,
    set_promo promo promos,
  )

abbrev pub dropped : ℕ → Progress → Progress
dropped i p = record p { items_to_remove = p.items_to_remove ++ i ∷ [] }

-- The line joins the purchases at its price.
abbrev pub joined : Good → ℕ → Claim → ℤ → List PromoCode → Progress → Progress
joined goods qty c line_price promos p = record p {
  purchases =
      p.purchases
      ++ record {
        goods = goods;
        deliveries = c.deliveries;
        values_to_delete = c.values_to_delete;
        unit_prices = split_amount line_price qty;
      }
        ∷ [];
  total_price = p.total_price +ℤ line_price;
  promos_to_record = promos;
  db = record p.db { item_values = c.item_values };
}

abbrev pub priced : ℕ → ℕ → CartItem → Good → Option Claim → Progress → Result Progress
priced now user_id ci goods none p = ok (dropped ci.id p)
priced now user_id ci goods (some c) p = do
  (line_price, promos) ←
      price_line now user_id goods ci.quantity ci.promo_code p.promos_to_record p.db
  ok (joined goods ci.quantity c line_price promos p)

-- One turn of the loop over the cart.
pub resolve_line : ℕ → ℕ → CartItem → Progress → Result Progress
resolve_line now user_id ci p = elim (first (has_good_id ci.item_id) p.db.goods) [
  | none ↦ ok (dropped ci.id p)
  | some goods ↦
      fulfil goods.id ci.quantity p.db.item_values >>= λ c. priced now user_id ci goods c p
]

pub resolve_lines : ℕ → ℕ → List CartItem → Progress → Result Progress
resolve_lines now user_id [] p = ok p
resolve_lines now user_id (ci ∷ cis) p =
    resolve_line now user_id ci p >>= λ q. resolve_lines now user_id cis q
