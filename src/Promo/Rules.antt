-- ===== src/Promo/Rules.antt =====
-- `promo_rule_error` against a description of the promos that a purchase may use.
use telegramshop_zijjn.Prelude.{
  ℕ, ◌<◌, ◌≤◌, ◌≡◌, ◌≢◌, ◌↔◌, ◌⊎◌, true, false, Option, none, some, exists, arith,
}
use telegramshop_zijjn.Models.{Good, Moment, Scope, global, category, item, PromoCode}
use telegramshop_zijjn.Store.{Store}
use telegramshop_zijjn.Promo.{
  promo_rule_error, row_error, binding_error, is_usage, is_balance, instant,
}

-- The bindings fit the scope. A deleted product or category leaves its scope behind (SET NULL).
abbrev BoundAs : Scope → Option ℕ → Option ℕ → Type 0
BoundAs global i c = (i ≡ none) × (c ≡ none)
BoundAs category i c = (i ≡ none) × (c ≢ some 0)
BoundAs item i c = (i ≢ some 0) × (c ≡ none)

abbrev pub WellBound : PromoCode → Type 0
WellBound p = BoundAs p.scope p.item_id p.category_id

-- The promo covers the product: it is global, or bound to the product or to its category.
abbrev Covers : Scope → Option ℕ → Option ℕ → Good → Type 0
Covers global i c g = Unit
Covers category i c g = c ≡ some g.category_id
Covers item i c g = i ≡ some g.id

abbrev InTime : Option Moment → ℕ → Type 0
InTime none now = Unit
InTime (some m) now = now ≤ instant m

-- What makes a promo good for a user's purchase of a product.
pub record Usable (db : Store) (now : ℕ) (p : PromoCode) (user_id : ℕ) (g : Good) : Type 0 where
  pub active : p.is_active ≡ true
  pub discounts : is_balance p.discount_type ≡ false
  pub in_time : InTime p.expires_at now
  pub uses_left : (p.max_uses ≡ 0) ⊎ (p.current_uses < p.max_uses)
  pub unused : exists (is_usage p.id user_id) db.promo_code_usages ≡ false
  pub covers : Covers p.scope p.item_id p.category_id g

binding_error-Covers :
    (p : PromoCode) (g : Good)
    → WellBound p
    → binding_error p (some g) ≡ none ↔ Covers p.scope p.item_id p.category_id g
unfolding binding_error
binding_error-Covers p g w = (λ e. ground arith, λ c. ground arith)

-- For a promo whose bindings fit its scope, the rules find no error exactly when the promo is active,
-- is no balance code, has not expired, has uses left, is unused by this user and covers the product.
pub promo_rule_error-Usable :
    (db : Store) (now : ℕ) (p : PromoCode) (user_id : ℕ) (g : Good)
    → WellBound p
    → promo_rule_error db now (some p) user_id (some g) false ≡ none ↔ Usable db now p user_id g
unfolding promo_rule_error row_error
promo_rule_error-Usable db now p user_id g w = (
  λ e. ground (arith, binding_error-Covers p g w),
  λ u. ground (arith, binding_error-Covers p g w),
)
