-- ===== src/Transactions/Payment/Once.antt =====
-- Over any history of confirmations a payment is credited once at most.
use telegramshop_zijjn.Prelude.{
  ℕ, ◌+◌, ◌≤◌, ◌≡◌, ◌≢◌, refl, sym, inl, inr, arith, if◌then◌else◌, Bool, true, false, ◌&&◌, List,
  [], ◌∷◌, Text, text_eq, text_eq→eq, Bool-cases,
}
use mathlib.Core.Path.{subst₂}
use telegramshop_zijjn.Store.{
  Store, World, log_audit, schedule, Result, ok, err, abort, integrity, operational, other, Task,
}
use telegramshop_zijjn.Store.Commit.{session-eq-ok}
use telegramshop_zijjn.Transactions.Accounts.{is_success}
use telegramshop_zijjn.Transactions.Payment.{
  Setting, Request, payment_block, conclude, process_payment_with_referral,
}
use telegramshop_zijjn.Transactions.Payment.Settled.{
  IsSettled, IsSettled-payments, block-IsSettled, IsSettled-payments, block-keeps, block_settled,
}

abbrev same_payment : Text → Text → Request → Bool
same_payment provider external_id r =
    text_eq r.provider provider && text_eq r.external_id external_id

-- How often a run of confirmations credits one payment.
pub credits : Text → Text → List (Setting × Request) → World → ℕ
credits provider external_id [] w = 0
credits provider external_id ((s, r) ∷ rest) w =
    let (reply, w') = process_payment_with_referral s r w in
    (if same_payment provider external_id r && is_success reply then 1 else 0)
    + credits provider external_id rest w'

conclude_keeps :
    (r : Request) (provider external_id : Text) (x : Result (List Task × Store)) (w : World)
    → ((y : List Task × Store) → x ≡ ok y → IsSettled provider external_id y.1)
    → IsSettled provider external_id w.store
    → IsSettled provider external_id (conclude r x w).1.store
unfolding conclude schedule log_audit
conclude_keeps r p e (ok y) w h d = h y refl
conclude_keeps r p e (err (abort code)) w h d = d
conclude_keeps r p e (err (integrity u)) w h d = d
conclude_keeps r p e (err (operational t)) w h d = IsSettled-payments refl d
conclude_keeps r p e (err other) w h d = IsSettled-payments refl d

process_keeps :
    (s : Setting) (r : Request) (provider external_id : Text) (w : World)
    → IsSettled provider external_id w.store
    → IsSettled provider external_id (process_payment_with_referral s r w).1.store
unfolding process_payment_with_referral
process_keeps s r provider external_id w d =
    conclude_keeps r provider external_id _ w
      (λ y e. block-keeps s r provider external_id w.store (session-eq-ok s.fault _ w.store e) d) d

conclude_settles :
    (r : Request) (x : Result (List Task × Store)) (w : World)
    → ((y : List Task × Store) → x ≡ ok y → IsSettled r.provider r.external_id y.1)
    → is_success (conclude r x w).0 ≡ true
    → IsSettled r.provider r.external_id (conclude r x w).1.store
unfolding conclude schedule
conclude_settles r (ok y) w h k = h y refl
conclude_settles r (err (abort code)) w h k = absurd (cc)
conclude_settles r (err (integrity u)) w h k = absurd (cc)
conclude_settles r (err (operational t)) w h k = absurd (cc)
conclude_settles r (err other) w h k = absurd (cc)

process_settles :
    (s : Setting) (r : Request) (w : World)
    → is_success (process_payment_with_referral s r w).0 ≡ true
    → IsSettled r.provider r.external_id (process_payment_with_referral s r w).1.store
unfolding process_payment_with_referral
process_settles s r w =
    conclude_settles r _ w (λ y e. block-IsSettled s r w.store (session-eq-ok s.fault _ w.store e))

-- Whatever a transaction of an error does, it is no success.
conclude_failed :
    (r : Request) (x : Result (List Task × Store)) (w : World)
    → ((y : List Task × Store) → x ≢ ok y)
    → is_success (conclude r x w).0 ≡ false
unfolding conclude
conclude_failed r (ok y) w h = absurd (h y refl)
conclude_failed r (err (abort code)) w h = refl
conclude_failed r (err (integrity u)) w h = refl
conclude_failed r (err (operational t)) w h = refl
conclude_failed r (err other) w h = refl

process_settled :
    (s : Setting) (r : Request) (w : World)
    → IsSettled r.provider r.external_id w.store
    → is_success (process_payment_with_referral s r w).0 ≡ false
unfolding process_payment_with_referral
process_settled s r w d = conclude_failed r _ w (λ y e.
    let k = session-eq-ok s.fault (payment_block s r) w.store e in
    let b = block_settled s r w.store d in cc)

same_payment-IsSettled :
    {provider external_id : Text} {db : Store} (r : Request)
    → same_payment provider external_id r ≡ true
    → IsSettled r.provider r.external_id db
    → IsSettled provider external_id db
same_payment-IsSettled {provider} {external_id} {db} r h d =
    subst₂ (λ p e. IsSettled p e db) (text_eq→eq r.provider provider (ground arith))
      (text_eq→eq r.external_id external_id (ground arith)) d

IsSettled-same_payment :
    {provider external_id : Text} {db : Store} (r : Request)
    → same_payment provider external_id r ≡ true
    → IsSettled provider external_id db
    → IsSettled r.provider r.external_id db
IsSettled-same_payment {provider} {external_id} {db} r h d =
    subst₂ (λ p e. IsSettled p e db) (sym (text_eq→eq r.provider provider (ground arith)))
      (sym (text_eq→eq r.external_id external_id (ground arith))) d

-- A settled payment is never credited again.
pub credits_settled :
    (provider external_id : Text) (history : List (Setting × Request)) (w : World)
    → IsSettled provider external_id w.store
    → credits provider external_id history w ≡ 0
unfolding credits
credits_settled p e [] w d = refl
credits_settled p e ((s, r) ∷ rest) w d =
    let ih =
      credits_settled p e rest (process_payment_with_referral s r w).1
        (process_keeps s r p e w d) in
    elim (Bool-cases (same_payment p e r)) [
      | inl same ↦ let f = process_settled s r w (IsSettled-same_payment r same d) in ground arith
      | inr differs ↦ ground arith
    ]

-- However often a payment is confirmed, by whichever path, interleaved with whatever other payments
-- and whatever errors of the database, at most one confirmation is answered by a credit.
pub credits-le-one :
    (provider external_id : Text) (history : List (Setting × Request)) (w : World)
    → credits provider external_id history w ≤ 1
unfolding credits
credits-le-one p e [] w = omega arith
credits-le-one p e ((s, r) ∷ rest) w =
    let ih = credits-le-one p e rest (process_payment_with_referral s r w).1 in
    elim (Bool-cases (same_payment p e r && is_success (process_payment_with_referral s r w).0)) [
      | inl hit ↦
          let d = process_settles s r w (ground arith) in
          let z =
            credits_settled p e rest (process_payment_with_referral s r w).1
              (same_payment-IsSettled r (ground arith) d) in
          ground arith
      | inr miss ↦ ground arith
    ]
