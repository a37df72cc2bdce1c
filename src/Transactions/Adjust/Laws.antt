-- ===== src/Transactions/Adjust/Laws.antt =====
-- Adjustments move what they say, and redeem a code once for each user.
use telegramshop_zijjn.Prelude.{
  ℕ, ◌≡◌, refl, inl, inr, arith, true, false, none, some, ℤ, pos, ◌≤ℤ◌, ◌+ℤ◌, ◌-ℤ◌, codes, Text,
  Option-cases,
}
use telegramshop_zijjn.Models.{User, PromoCode}
use telegramshop_zijjn.Promo.{promo_rule_error, find_promo, record_usage}
use telegramshop_zijjn.Store.{
  Store, World, log_audit, schedule, Fault, Result, ok, err, abort, integrity, operational, other,
  Code,
}
use telegramshop_zijjn.Store.Commit.{session-eq-ok}
use telegramshop_zijjn.Transactions.Accounts.{
  Reply, success, failed, transaction_error, find_user, credit,
}
use telegramshop_zijjn.Models.{AuditEntry}
use telegramshop_zijjn.Transactions.Adjust.{
  is_overdraft, add_operation, admin_block, finish, admin_balance_change, plain_entry, redeem_block,
}

-- The users and operations after an adjustment by an amount.
pub record Adjusted (i : ℕ) (amount : ℤ) (now : ℕ) (db db' : Store) : Type 0 where
  pub user : User
  pub found : find_user i db ≡ some user
  pub covered : is_overdraft user.balance amount ≡ false
  pub users : db'.users ≡ (credit i amount db).users
  pub operations : db'.operations ≡ (add_operation i amount now db).operations

-- Whatever the block, a failure leaves no trace but an audit entry.
abbrev pub Finished :
    {A : Type 0} → (A → Store → Store → Type 0) → AuditEntry → World → Reply A Code × World → Type 0
Finished P entry w (success a, w') = P a w.store w'.store
Finished P entry w (failed code, w') = w' ≡ w
Finished P entry w (transaction_error, w') =
    (w'.tasks ≡ w.tasks) × (w'.store ≡ log_audit entry w.store)

finish-Finished :
    {A : Type 0} (P : A → Store → Store → Type 0) (entry : AuditEntry) (i : ℕ)
    (x : Result (A × Store)) (w : World)
    → ((a : A) (db' : Store) → x ≡ ok (a, db') → P a w.store db')
    → Finished P entry w (finish entry i x w)
unfolding finish schedule
finish-Finished P entry i (ok (a, db')) w h = h a db' refl
finish-Finished P entry i (err (abort code)) w h = refl
finish-Finished P entry i (err (integrity u)) w h = (refl, refl)
finish-Finished P entry i (err (operational t)) w h = (refl, refl)
finish-Finished P entry i (err other) w h = (refl, refl)

admin_block-Adjusted :
    (i : ℕ) (amount : ℤ) (now : ℕ) (db : Store) {x : (Unit {0}) × Store}
    → admin_block i amount now db ≡ ok x
    → Adjusted i amount now db x.1
unfolding admin_block add_operation credit
admin_block-Adjusted i amount now db {x} h = elim (Option-cases (find_user i db)) [
  | inl e ↦ absurd (ground arith)
  | inr (u, e) ↦ record {
    user = u;
    found = e;
    covered = ground arith;
    users = ground arith;
    operations = ground arith;
  }
]

pub admin_balance_change-Finished :
    (now : ℕ) (fault : Fault) (i : ℕ) (amount : ℤ) (w : World)
    → Finished
        (λ _. Adjusted i amount now)
        (plain_entry (codes "admin_balance_change_failed") i)
        w
        (admin_balance_change now fault i amount w)
unfolding admin_balance_change
admin_balance_change-Finished now fault i amount w =
    finish-Finished (λ _. Adjusted i amount now) _ i _ w
      (λ a db' e. admin_block-Adjusted i amount now w.store (session-eq-ok fault _ w.store e))

-- The test on a deduction is right: what it lets pass leaves a balance of zero or more.
pub is_overdraft-nonneg :
    (b amount : ℤ) → pos 0 ≤ℤ b → is_overdraft b amount ≡ false → pos 0 ≤ℤ b +ℤ amount
unfolding is_overdraft ◌+ℤ◌ ◌-ℤ◌
is_overdraft-nonneg b amount h e = ground arith

-- The state after a code has been redeemed.
pub record Redeemed (user_id now : ℕ) (code : Text) (amount : ℤ) (db db' : Store) : Type 0 where
  pub user : User
  pub promo : PromoCode
  pub found : find_user user_id db ≡ some user
  pub promo_found : find_promo code db ≡ some promo
  pub allowed : promo_rule_error db now (some promo) user_id none true ≡ none
  pub value : amount ≡ promo.discount_value
  pub users : db'.users ≡ (credit user_id amount db).users
  pub operations : db'.operations ≡ (add_operation user_id amount now db).operations
  pub promos : db'.promo_codes ≡ (record_usage promo user_id db).promo_codes
  pub usages : db'.promo_code_usages ≡ (record_usage promo user_id db).promo_code_usages

pub redeem_block-Redeemed :
    (code : Text) (user_id now : ℕ) (db : Store) {x : ℤ × Store}
    → redeem_block code user_id now db ≡ ok x
    → Redeemed user_id now code x.0 db x.1
unfolding redeem_block add_operation credit record_usage
redeem_block-Redeemed code user_id now db {x} h = elim (Option-cases (find_user user_id db)) [
  | inl e ↦ absurd (ground arith)
  | inr (u, e) ↦ elim (Option-cases (find_promo code db)) [
    | inl n ↦ absurd (ground arith)
    | inr (p, q) ↦
        elim (Option-cases (promo_rule_error db now (find_promo code db) user_id none true)) [
          | inr (f, g) ↦ absurd (ground arith)
          | inl g ↦ record {
            user = u;
            promo = p;
            found = e;
            promo_found = q;
            allowed = rw q at g;
            value = ground arith;
            users = ground arith;
            operations = ground arith;
            promos = ground arith;
            usages = ground arith;
          }
        ]
  ]
]
