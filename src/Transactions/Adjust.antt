-- ===== src/Transactions/Adjust.antt =====
-- `admin_balance_change` and `redeem_balance_promo`: an administrator's change of a balance, and a
-- promo code that adds to it.
pub mod Laws
pub mod Once
use telegramshop_zijjn.Prelude.{
  ℕ, ◌==◌, if◌then◌else◌, Bool, true, false, ◌&&◌, Option, none, some, List, [], ◌∷◌, ◌++◌, ℤ, pos,
  ltb_ℤ, ◌-ℤ◌, Text, codes,
}
use telegramshop_zijjn.Models.{User, Operation, PromoCode, AuditEntry}
use telegramshop_zijjn.Promo.{
  RuleError, not_found, inactive, wrong_type, expired, max_uses, already_used, wrong_item,
  wrong_category, promo_rule_error, find_promo, record_usage,
}
use telegramshop_zijjn.Store.{
  Store, World, Task, user_cache, stats_cache, session, log_audit, schedule, Fault, Result, ok, err,
  Failure, abort, integrity, operational, other, Code, user_not_found, insufficient_funds,
  promo_not_found, promo_inactive, promo_not_balance_type, promo_expired, promo_max_uses_reached,
  promo_already_used, ◌>>=◌, ◌>>◌, abort_if, or_abort,
}
use telegramshop_zijjn.Transactions.Accounts.{
  Reply, success, failed, transaction_error, find_user, credit,
}

-- `abs` of a negative amount.
abbrev pub negated : ℤ → ℤ
negated a = pos 0 -ℤ a

-- `amount < 0 and user.balance < abs(amount)`
unfoldable pub is_overdraft : ℤ → ℤ → Bool
is_overdraft balance amount = ltb_ℤ amount (pos 0) && ltb_ℤ balance (negated amount)

unfoldable pub add_operation : ℕ → ℤ → ℕ → Store → Store
add_operation user_id amount now db = record db {
  operations =
      db.operations
      ++ record { user_id = user_id; operation_value = amount; operation_time = now } ∷ [];
}

pub admin_block : ℕ → ℤ → ℕ → Store → Result ((Unit {0}) × Store)
admin_block telegram_id amount now db = do
  user ← or_abort (find_user telegram_id db) user_not_found
  abort_if (is_overdraft user.balance amount) insufficient_funds
  ok (tt, add_operation telegram_id amount now (credit telegram_id amount db))

abbrev pub plain_entry : Text → ℕ → AuditEntry
plain_entry action user_id = record { action = action; user_id = some user_id; resource_id = none }

-- The handlers, alike in the two functions: a code, an audited error, or the caches to drop.
unfoldable pub finish :
    {A : Type 0} → AuditEntry → ℕ → Result (A × Store) → World → Reply A Code × World
finish entry user_id (ok (a, db)) w =
    (success a, schedule (user_cache user_id ∷ stats_cache ∷ []) (record w { store = db }))
finish entry user_id (err (abort code)) w = (failed code, w)
finish entry user_id (err _) w = (transaction_error, record w { store = log_audit entry w.store })

-- `transaction_error` stands for "balance_change_error".
unfoldable pub admin_balance_change : ℕ → Fault → ℕ → ℤ → World → Reply (Unit {0}) Code × World
admin_balance_change now fault telegram_id amount w =
    finish (plain_entry (codes "admin_balance_change_failed") telegram_id) telegram_id
      (session fault (admin_block telegram_id amount now) w.store) w

-- `_REDEEM_PROMO_ERRORS`. The two binding errors are not among its keys: the rules do not raise them
-- when a balance code is required, and the source would fail on them with a KeyError.
pub redeem_promo_error : RuleError → Failure
redeem_promo_error not_found = abort promo_not_found
redeem_promo_error inactive = abort promo_inactive
redeem_promo_error wrong_type = abort promo_not_balance_type
redeem_promo_error expired = abort promo_expired
redeem_promo_error max_uses = abort promo_max_uses_reached
redeem_promo_error already_used = abort promo_already_used
redeem_promo_error wrong_item = other
redeem_promo_error wrong_category = other

abbrev or_rule : Option RuleError → Result (Unit {0})
or_rule none = ok tt
or_rule (some e) = err (redeem_promo_error e)

unfoldable pub redeem_block : Text → ℕ → ℕ → Store → Result (ℤ × Store)
redeem_block code user_id now db = do
  user ← or_abort (find_user user_id db) promo_not_found
  or_rule (promo_rule_error db now (find_promo code db) user_id none true)
  promo ← or_abort (find_promo code db) promo_not_found
  let amount = promo.discount_value
  ok (
    amount,
    add_operation user_id amount now (record_usage promo user_id (credit user_id amount db)),
  )

abbrev pub redeem_entry : Text → ℕ → AuditEntry
redeem_entry code user_id = record {
  action = codes "promo_redeem_failed";
  user_id = some user_id;
  resource_id = some code;
}

-- `transaction_error` stands for "errors.something_wrong".
unfoldable pub redeem_balance_promo : ℕ → Fault → Text → ℕ → World → Reply ℤ Code × World
redeem_balance_promo now fault code user_id w =
    finish (redeem_entry code user_id) user_id
      (session fault (redeem_block code user_id now) w.store) w
