-- ===== src/Models/Sales.antt =====
-- bot/database/models/main.py: the products with their sales, and the promo codes.
use telegramshop_zijjn.Prelude.{ℕ, ℤ, Bool, Option, none, some, Text}

-- A datetime with or without a time zone, by its wall clock in UTC.
pub data Moment : Type 0 where
  naive aware : ℕ → Moment

-- What `sale_until` may hold: a row has a datetime or None, a dict that was read from the cache may
-- have a string. A string stands as what `datetime.fromisoformat` makes of it, `none` for ValueError.
pub data SaleUntil : Type 0 where
  unset : SaleUntil
  at : Moment → SaleUntil
  iso : Option Moment → SaleUntil

pub record Good : Type 0 where
  pub id : ℕ
  pub name : Text
  pub price : ℤ
  pub description : Text
  pub category_id : ℕ
  pub sale_percent : Option ℤ
  pub sale_until : SaleUntil
  pub delivery_template : Option Text

pub record Category : Type 0 where
  pub id : ℕ
  pub name : Text

pub data DiscountType : Type 0 where
  percent fixed balance : DiscountType

-- The column's check constraint allows these three.
pub data Scope : Type 0 where
  global category item : Scope

pub record PromoCode : Type 0 where
  pub id : ℕ
  pub code : Text
  pub discount_type : DiscountType
  pub discount_value : ℤ
  pub scope : Scope
  pub max_uses : ℕ
  pub current_uses : ℕ
  pub expires_at : Option Moment
  pub category_id : Option ℕ
  pub item_id : Option ℕ
  pub is_active : Bool

-- `promo_scope_for`: the item wins.
unfoldable pub promo_scope_for : Option ℕ → Option ℕ → Scope
promo_scope_for category_id (some i) = item
promo_scope_for (some c) none = category
promo_scope_for none none = global

pub record PromoCodeUsage : Type 0 where
  pub promo_id : ℕ
  pub user_id : ℕ
