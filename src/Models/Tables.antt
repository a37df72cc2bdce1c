-- ===== src/Models/Tables.antt =====
-- bot/database/models/main.py: users, stock, purchases, payments, carts and subscriptions.
use telegramshop_zijjn.Prelude.{ℕ, ℤ, Bool, Option, Text}

pub record User : Type 0 where
  pub telegram_id : ℕ
  pub language : Text
  pub role_id : Option ℕ
  pub balance : ℤ
  pub referral_id : Option ℕ
  pub is_blocked : Bool

pub record Role : Type 0 where
  pub id : ℕ
  pub name : Text
  pub default : Bool
  pub permissions : ℕ

-- A row of stock. `quantity` counts the identical deliveries that the row stands for.
pub record ItemValue : Type 0 where
  pub id : ℕ
  pub item_id : ℕ
  pub value : Option Text
  pub is_infinity : Bool
  pub quantity : ℕ
  pub delivery_type : Text
  pub file_path : Option Text
  pub file_name : Option Text

pub record BoughtGood : Type 0 where
  pub id : ℕ
  pub item_name : Text
  pub value : Text
  pub price : ℤ
  pub buyer_id : Option ℕ
  pub bought_datetime : ℕ
  pub unique_id : ℕ
  pub delivery_type : Text
  pub file_path : Option Text
  pub file_name : Option Text

pub record Operation : Type 0 where
  pub user_id : ℕ
  pub operation_value : ℤ
  pub operation_time : ℕ

-- `String(16)`; these are the values that the program writes.
pub data PaymentStatus : Type 0 where
  pending succeeded failed : PaymentStatus

pub record Payment : Type 0 where
  pub id : ℕ
  pub provider : Text
  pub external_id : Text
  pub user_id : ℕ
  pub amount : ℤ
  pub currency : Text
  pub status : PaymentStatus
  pub created_at : ℕ

pub record ReferralEarning : Type 0 where
  pub referrer_id : ℕ
  pub referral_id : ℕ
  pub amount : ℤ
  pub original_amount : ℤ

pub record CartItem : Type 0 where
  pub id : ℕ
  pub user_id : ℕ
  pub item_id : ℕ
  pub promo_code : Option Text
  pub quantity : ℕ

pub record StockSubscription : Type 0 where
  pub id : ℕ
  pub user_id : ℕ
  pub item_id : ℕ

pub record AuditEntry : Type 0 where
  pub action : Text
  pub user_id : Option ℕ
  pub resource_id : Option Text
