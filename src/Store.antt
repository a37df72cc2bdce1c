-- ===== src/Store.antt =====
-- The database as the tables of its rows, and a transaction on it: `Database.session` of
-- bot/database/main.py commits what the block wrote, or rolls all of it back when the block raises.
mod Outcome
pub mod Commit
pub use Outcome.*
use telegramshop_zijjn.Prelude.{
  ℕ, suc, ◌==◌, Bool, Option, none, some, List, [], ◌∷◌, ◌++◌, Text, ◌≡◌,
}
use telegramshop_zijjn.Models.{
  User, Role, Category, Good, ItemValue, BoughtGood, Operation, Payment, ReferralEarning, PromoCode,
  PromoCodeUsage, CartItem, StockSubscription, AuditEntry,
}

-- `next_id` stands for the sequences that number new rows.
pub record Store : Type 0 where
  pub users : List User
  pub roles : List Role
  pub categories : List Category
  pub goods : List Good
  pub item_values : List ItemValue
  pub bought_goods : List BoughtGood
  pub operations : List Operation
  pub payments : List Payment
  pub referral_earnings : List ReferralEarning
  pub promo_codes : List PromoCode
  pub promo_code_usages : List PromoCodeUsage
  pub cart_items : List CartItem
  pub stock_subscriptions : List StockSubscription
  pub audit_log : List AuditEntry
  pub next_id : ℕ

-- What `safe_create_task` is asked to run after a commit.
pub data Task : Type 0 where
  user_cache : ℕ → Task
  stats_cache : Task
  item_cache : Text → Task

-- The database and the tasks that were scheduled, the newest last.
pub record World : Type 0 where
  pub store : Store
  pub tasks : List Task

-- `async with Database().session() as s: body`. An error of the database may strike before the block
-- has decided anything or after it has written all; in between the rollback makes it one of the two.
unfoldable pub session :
    {A : Type 0} → Fault → (Store → Result (A × Store)) → Store → Result (A × Store)
session calm body db = body db
session (early e) body db = err e
session (late e) body db = body db >>= λ _. err e

-- `log_audit` with no session writes the entry in a transaction of its own.
unfoldable pub log_audit : AuditEntry → Store → Store
log_audit entry db = record db { audit_log = db.audit_log ++ entry ∷ [] }

unfoldable pub schedule : List Task → World → World
schedule ts w = record w { tasks = w.tasks ++ ts }
