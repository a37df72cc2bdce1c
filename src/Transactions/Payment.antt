-- ===== src/Transactions/Payment.antt =====
-- `process_payment_with_referral`: credits a payment once, with the referrer's bonus.
pub mod Settled
pub mod Once
pub mod Amounts
use telegramshop_zijjn.Prelude.{
  decimal, ℕ, suc, ◌==◌, if◌then◌else◌, Bool, true, false, not, ◌&&◌, Option, none, some, List, [],
  ◌∷◌, ◌++◌, ℤ, pos, pos_part, ltb_ℤ, scale, max_ℤ, min_ℤ, first, update_where, Text, text_eq,
  codes,
}
use telegramshop_zijjn.Models.{
  User, Payment, PaymentStatus, pending, succeeded, failed, Operation, ReferralEarning, AuditEntry,
}
use telegramshop_zijjn.Pricing.{quantize}
use telegramshop_zijjn.Store.{
  Store, World, Task, user_cache, stats_cache, session, log_audit, schedule, Fault, Result, ok, err,
  Failure, abort, integrity, operational, other, Code, already_processed, ◌>>=◌, ◌>>◌,
}
use telegramshop_zijjn.Transactions.Accounts.{Reply, success, transaction_error, find_user, credit}

-- The clock, `EnvKeys.PAY_CURRENCY` and the database's own errors.
pub record Setting : Type 0 where
  pub now : ℕ
  pub currency : Text
  pub fault : Fault

-- A credit that a provider has confirmed.
pub record Request : Type 0 where
  pub user_id : ℕ
  pub amount : ℤ
  pub provider : Text
  pub external_id : Text
  pub referral_percent : ℤ

abbrev pub is_payment : Text → Text → Payment → Bool
is_payment provider external_id p = text_eq p.provider provider && text_eq p.external_id external_id

abbrev pub is_succeeded : PaymentStatus → Bool
is_succeeded succeeded = true
is_succeeded _ = false

abbrev pub mark_succeeded : Payment → Payment
mark_succeeded p = record p { status = succeeded }

abbrev pub new_payment : Setting → Request → ℕ → Payment
new_payment s r i = record {
  id = i;
  provider = r.provider;
  external_id = r.external_id;
  user_id = r.user_id;
  amount = r.amount;
  currency = s.currency;
  status = succeeded;
  created_at = s.now;
}

-- Step 1: a payment that has succeeded is refused, another becomes or is added as succeeded.
pub claim_payment : Setting → Request → Store → Result Store
claim_payment s r db = elim (first (is_payment r.provider r.external_id) db.payments) [
  | none ↦ ok (record db {
    payments = db.payments ++ new_payment s r db.next_id ∷ [];
    next_id = suc db.next_id;
  })
  | some p ↦
      if is_succeeded p.status
      then err (abort already_processed)
      else ok (record db {
        payments = update_where (is_payment r.provider r.external_id) mark_succeeded db.payments;
      })
]

-- `min(max(referral_percent, 0), 99)`
pub clamped_percent : ℤ → ℕ
clamped_percent percent = pos_part (min_ℤ (max_ℤ percent (pos 0)) (pos 99))

-- The percentage of the amount, rounded to cents.
pub referral_amount : ℤ → ℤ → ℤ
referral_amount percent amount = quantize 100 (scale (clamped_percent percent) amount)

-- `user.referral_id and user.referral_id != user_id`
abbrev pub referrer_of : Option ℕ → ℕ → Option ℕ
referrer_of none user_id = none
referrer_of (some i) user_id = if not (i == 0) && not (i == user_id) then some i else none

abbrev pub earning : Request → ℕ → ℤ → ReferralEarning
earning r referrer bonus = record {
  referrer_id = referrer;
  referral_id = r.user_id;
  amount = bonus;
  original_amount = r.amount;
}

abbrev bonus_entry : ℕ → ℕ → AuditEntry
bonus_entry referrer user_id = record {
  action = codes "referral_bonus";
  user_id = some referrer;
  resource_id = some (decimal user_id);
}

pub pay_bonus : Request → ℕ → ℤ → Store → Store
pay_bonus r referrer bonus db = elim (find_user referrer db) [
  | none ↦ db
  | some u ↦
      let paid = log_audit (bonus_entry referrer r.user_id) (credit referrer bonus db) in
      record paid { referral_earnings = paid.referral_earnings ++ earning r referrer bonus ∷ [] }
]

pub bonus_of : Request → ℤ
bonus_of r = referral_amount r.referral_percent r.amount

-- `clamped_percent > 0` and `referral_amount > 0`
pub is_due : Request → Bool
is_due r = not (clamped_percent r.referral_percent == 0) && ltb_ℤ (pos 0) (bonus_of r)

-- Step 4: the referral bonus, if there is a percentage, a referrer and something to pay.
pub refer : Request → Option ℕ → Store → Store
refer r none db = db
refer r (some referrer) db = if is_due r then pay_bonus r referrer (bonus_of r) db else db

abbrev pub operation_of : Setting → Request → Operation
operation_of s r = record {
  user_id = r.user_id;
  operation_value = r.amount;
  operation_time = s.now;
}

pub record_operation : Operation → Store → Store
record_operation o db = record db { operations = db.operations ++ o ∷ [] }

-- `referrer_id` after the commit: whose cache to drop, if the percentage counts.
abbrev referrer_task : Request → User → List Task
referrer_task r u = elim u.referral_id [
  | none ↦ []
  | some i ↦
      if not (clamped_percent r.referral_percent == 0) && not (i == 0)
      then user_cache i ∷ []
      else []
]

-- Steps 2 to 4 on the user's row; a missing user is an error of `one()`.
pub credit_user : Setting → Request → Option User → Store → Result (List Task × Store)
credit_user s r none db = err other
credit_user s r (some u) db = ok (
  user_cache r.user_id ∷ stats_cache ∷ referrer_task r u,
  refer r (referrer_of u.referral_id r.user_id)
      (record_operation (operation_of s r) (credit r.user_id r.amount db)),
)

pub payment_block : Setting → Request → Store → Result (List Task × Store)
payment_block s r db = do db1 ← claim_payment s r db; credit_user s r (find_user r.user_id db1) db1

abbrev pub payment_failed : Request → AuditEntry
payment_failed r = record {
  action = codes "payment_failed";
  user_id = some r.user_id;
  resource_id = none;
}

abbrev pub PaymentReply : Type 0
PaymentReply = Reply (Unit {0}) Code × World

-- The handlers of `process_payment_with_referral`; `transaction_error` stands for "payment_error".
unfoldable pub conclude : Request → Result (List Task × Store) → World → PaymentReply
conclude r (ok (ts, db)) w = (success tt, schedule ts (record w { store = db }))
conclude r (err (abort code)) w = (Reply.failed code, w)
conclude r (err (integrity unique_id)) w = (Reply.failed already_processed, w)
conclude r (err _) w =
    (transaction_error, record w { store = log_audit (payment_failed r) w.store })

unfoldable pub process_payment_with_referral : Setting → Request → World → PaymentReply
process_payment_with_referral s r w = conclude r (session s.fault (payment_block s r) w.store) w
