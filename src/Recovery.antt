-- ===== src/Recovery.antt =====
-- The recovery of payments of bot/misc/services/recovery.py: one round of `recover_pending_payments`.
pub mod Rounds
use telegramshop_zijjn.Prelude.{
  ℕ, ◌+◌, ◌==◌, ltb, if◌then◌else◌, Bool, true, false, not, ◌&&◌, ◌||◌, List, [], ◌∷◌, ℤ, Text,
  text_eq, codes, select_where, update_where,
}
use telegramshop_zijjn.Models.{Payment, PaymentStatus, pending, succeeded, failed}
use telegramshop_zijjn.Store.{Store, World}
use telegramshop_zijjn.Transactions.Payment.{Setting, Request, process_payment_with_referral}

-- What the provider of a payment says of it: it is paid, it has ended, or anything else, among it an
-- error of the provider and a provider that is not configured.
pub data Answer : Type 0 where
  paid ended unknown : Answer

abbrev pub is_pending : PaymentStatus → Bool
is_pending pending = true
is_pending succeeded = false
is_pending failed = false

-- `created_at < now - 30 minutes`, in seconds.
abbrev pub is_expired : ℕ → Payment → Bool
is_expired now p = ltb (p.created_at + 1800) now

abbrev pub mark_failed : Payment → Payment
mark_failed p = record p { status = failed }

unfoldable pub expire_payments : ℕ → List Payment → List Payment
expire_payments now ps = update_where (λ p. is_pending p.status && is_expired now p) mark_failed ps

abbrev pub is_recoverable : ℕ → Payment → Bool
is_recoverable now p =
    is_pending p.status
    && not (is_expired now p)
    && (text_eq p.provider (codes "cryptopay") || text_eq p.provider (codes "payos"))

abbrev pub has_payment_id : ℕ → Payment → Bool
has_payment_id i p = p.id == i

pub mark_payment_failed : ℕ → Store → Store
mark_payment_failed i db = record db {
  payments = update_where (has_payment_id i) mark_failed db.payments;
}

abbrev pub confirmation : ℤ → Payment → Request
confirmation referral_percent p = record {
  user_id = p.user_id;
  amount = p.amount;
  provider = p.provider;
  external_id = p.external_id;
  referral_percent = referral_percent;
}

-- `_check_and_process_payment`, the notice to the user left out.
pub settle_payment : Setting → ℤ → Answer → Payment → World → World
settle_payment s referral_percent paid p w =
    (process_payment_with_referral s (confirmation referral_percent p) w).1
settle_payment s referral_percent ended p w = record w { store = mark_payment_failed p.id w.store }
settle_payment s referral_percent unknown p w = w

-- The loop over the copies; each check has its own setting and answer.
pub settle_all : (Payment → Setting) → ℤ → (Payment → Answer) → List Payment → World → World
settle_all setting referral_percent answer [] w = w
settle_all setting referral_percent answer (p ∷ ps) w =
    settle_all setting referral_percent answer ps
      (settle_payment (setting p) referral_percent (answer p) p w)

abbrev pub expired_world : ℕ → World → World
expired_world now w = record w {
  store = record (w.store) { payments = expire_payments now w.store.payments };
}

unfoldable pub recover_pending_payments :
    ℕ → (Payment → Setting) → ℤ → (Payment → Answer) → World → World
recover_pending_payments now setting referral_percent answer w =
    let expired = expired_world now w in
    settle_all setting referral_percent answer
      (select_where (is_recoverable now) expired.store.payments) expired
