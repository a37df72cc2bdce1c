-- ===== src/Transactions/Payment/Amounts.antt =====
-- What a payment moves: the user gets the amount, the referrer a bonus that is no larger.
use telegramshop_zijjn.Prelude.{
  ℕ, ◌*◌, ◌==◌, ◌≤◌, ◌≡◌, ◌≢◌, refl, sym, ap, subst, fun_ext, ◌∙◌, inl, inr, arith, if◌then◌else◌,
  Bool, true, false, ◌&&◌, Option, none, some, List, [], ◌∷◌, ◌++◌, ℤ, pos, max_ℤ, min_ℤ,
  Option-cases, Bool-cases, option_map,
}
use telegramshop_zijjn.Models.{User}
use telegramshop_zijjn.Pricing.Rounding.{quantize_hundredths-le, quantize_nonneg}
use telegramshop_zijjn.Pricing.Bounds.{InRange, scale-pos}
use telegramshop_zijjn.Store.{
  Store, World, log_audit, schedule, Result, ok, err, abort, integrity, operational, other, Task,
}
use telegramshop_zijjn.Store.Commit.{session-eq-ok}
use telegramshop_zijjn.Transactions.Accounts.{
  success, failed, transaction_error, find_user, credit, deposit, find_user-credit_self,
  find_user-credit_other, find_user-credit, option_map-id,
}
use telegramshop_zijjn.Transactions.Payment.{
  Setting, Request, claim_payment, credit_user, clamped_percent, referral_amount, referrer_of,
  pay_bonus, bonus_of, is_due, refer, record_operation, operation_of, payment_block, conclude,
  PaymentReply, process_payment_with_referral, payment_failed,
}
use telegramshop_zijjn.Transactions.Payment.Settled.{block_parts}

clamped_percent-le : (p : ℤ) → clamped_percent p ≤ 99
unfolding clamped_percent min_ℤ max_ℤ
clamped_percent-le p = ground arith

percent_le : (k a : ℕ) → k ≤ 99 → k * a ≤ a * 100
percent_le k a h = grind arith

-- The referral bonus of a payment lies between nothing and the payment, whatever percentage is set.
pub referral_amount_range :
    (percent : ℤ) (amount : ℕ) → InRange (pos amount) (referral_amount percent (pos amount))
unfolding referral_amount
referral_amount_range p a = rw (scale-pos (clamped_percent p) a) (
  quantize_nonneg 100 (clamped_percent p * a),
  quantize_hundredths-le (clamped_percent p * a) a
      (percent_le (clamped_percent p) a (clamped_percent-le p)),
)

-- What the bonus step does to the row of user j.
pub with_bonus : Request → Option ℕ → ℕ → User → User
with_bonus r none j v = v
with_bonus r (some i) j v = if i == j && is_due r then deposit (bonus_of r) v else v

-- The state after a payment of a user's, who may have a referrer.
pub record Paid (s : Setting) (r : Request) (db db' : Store) : Type 0 where
  pub user : User
  pub found : find_user r.user_id db ≡ some user
  pub credited : find_user r.user_id db' ≡ some (deposit r.amount user)
  pub others :
      (j : ℕ)
      → r.user_id ≢ j
      → find_user j db'
        ≡ option_map (with_bonus r (referrer_of user.referral_id r.user_id) j) (find_user j db)
  pub recorded : db'.operations ≡ db.operations ++ operation_of s r ∷ []

referrer_of_ne : (o : Option ℕ) (i j : ℕ) → referrer_of o i ≡ some j → i ≢ j
referrer_of_ne none i j h = cc
referrer_of_ne (some k) i j h = ground arith

claim_users :
    (s : Setting) (r : Request) (db : Store) {db1 : Store}
    → claim_payment s r db ≡ ok db1
    → (db1.users ≡ db.users) × (db1.operations ≡ db.operations)
unfolding claim_payment
claim_users s r db {db1} h = ground arith

nobody :
    (i j : ℕ) (f : User → User) (db : Store)
    → find_user i db ≡ none
    → find_user j db ≡ option_map (λ v. if i == j then f v else v) (find_user j db)
nobody i j f db h = elim (Bool-cases (i == j)) [
  | inl e ↦
      let q : i ≡ j = ground arith in let n = subst (λ k. find_user k db ≡ none) q h in rw n refl
  | inr e ↦ rw e (option_map-id (find_user j db))
]

pay_bonus_users :
    (r : Request) (i j : ℕ) (bonus : ℤ) (db : Store)
    → find_user j (pay_bonus r i bonus db)
      ≡ option_map (λ v. if i == j then deposit bonus v else v) (find_user j db)
unfolding pay_bonus log_audit
pay_bonus_users r i j bonus db = elim (Option-cases (find_user i db)) [
  | inl e ↦ rw (e, pay_bonus) (nobody i j (deposit bonus) db e)
  | inr (u, e) ↦ rw (e, pay_bonus) (find_user-credit i j bonus db)
]

if-and : (b c : Bool) (x y : User) → c ≡ true → (if b && c then x else y) ≡ (if b then x else y)
if-and true c x y h = rw h
if-and false c x y h = refl

if-and_not : (b c : Bool) (x y : User) → c ≡ false → (if b && c then x else y) ≡ y
if-and_not true c x y h = rw h
if-and_not false c x y h = refl

refer_users :
    (r : Request) (o : Option ℕ) (j : ℕ) (db : Store)
    → find_user j (refer r o db) ≡ option_map (with_bonus r o j) (find_user j db)
unfolding refer with_bonus
refer_users r none j db = option_map-id (find_user j db)
refer_users r (some i) j db = elim (Bool-cases (is_due r)) [
  | inl e ↦ rw e (
      pay_bonus_users r i j (bonus_of r) db
      ∙ ap (λ f. option_map f (find_user j db))
          (fun_ext λ v. sym (if-and (i == j) (is_due r) (deposit (bonus_of r) v) v e)))
  | inr e ↦ rw e (
      option_map-id (find_user j db)
      ∙ ap (λ f. option_map f (find_user j db))
          (fun_ext λ v. sym (if-and_not (i == j) (is_due r) (deposit (bonus_of r) v) v e)))
]

refer_operations :
    (r : Request) (o : Option ℕ) (db : Store) → (refer r o db).operations ≡ db.operations
unfolding refer pay_bonus credit log_audit
refer_operations r none db = refl
refer_operations r (some i) db = ground arith

with_bonus_self :
    (r : Request) (o : Option ℕ) (i : ℕ) (v : User) → with_bonus r (referrer_of o i) i v ≡ v
unfolding with_bonus
with_bonus_self r none i v = refl
with_bonus_self r (some k) i v = ground arith

credit_user-Paid :
    (s : Setting) (r : Request) (u : User) (db : Store) {x : List Task × Store}
    → find_user r.user_id db ≡ some u
    → credit_user s r (some u) db ≡ ok x
    → Paid s r db x.1
unfolding credit_user record_operation credit
credit_user-Paid s r u db {x} f h =
    let o = referrer_of u.referral_id r.user_id in
    let db1 = record_operation (operation_of s r) (credit r.user_id r.amount db) in
    let e : x.1 ≡ refer r o db1 = ground arith in
    record {
      user = u;
      found = f;
      credited = rw e (
          refer_users r o r.user_id db1
          ∙ ap (option_map (with_bonus r o r.user_id))
              (find_user-credit_self r.user_id r.amount db f)
          ∙ ap some (with_bonus_self r u.referral_id r.user_id (deposit r.amount u)));
      others = λ j ne. rw e (
          refer_users r o j db1
          ∙ ap (option_map (with_bonus r o j)) (find_user-credit_other r.user_id j r.amount db ne));
      recorded = rw e (refer_operations r o db1);
    }

Paid-transport :
    {s : Setting} {r : Request} {db1 db' : Store} (db : Store)
    → (db1.users ≡ db.users) × (db1.operations ≡ db.operations)
    → Paid s r db1 db'
    → Paid s r db db'
Paid-transport db (eu, eo) p = record {
  user = p.user;
  found = rw (← eu) p.found;
  credited = p.credited;
  others = λ j ne. rw (← eu) (p.others j ne);
  recorded = rw (← eo) p.recorded;
}

missing :
    (s : Setting) (r : Request) (u : Option User) (db : Store) {x : List Task × Store}
    → u ≡ none
    → credit_user s r u db ≡ ok x
    → ⊥
unfolding credit_user
missing s r none db e h = cc
missing s r (some u) db e h = cc

block-Paid :
    (s : Setting) (r : Request) (db : Store) {x : List Task × Store}
    → payment_block s r db ≡ ok x
    → Paid s r db x.1
block-Paid s r db {x} h =
    let (db1, q, k) = block_parts s r db h in
    elim (Option-cases (find_user r.user_id db1)) [
      | inl e ↦ absurd (missing s r (find_user r.user_id db1) db1 e k)
      | inr (u, e) ↦
          Paid-transport db (claim_users s r db q) (credit_user-Paid s r u db1 e (rw e at k))
    ]

-- What a payment is answered with: success moves the amount and the bonus, and a failure leaves the
-- database as it was, but for an audit entry after an unexpected error.
abbrev pub PaymentOutcome : Setting → Request → World → PaymentReply → Type 0
PaymentOutcome s r w (success u, w') = Paid s r w.store w'.store
PaymentOutcome s r w (failed code, w') = w' ≡ w
PaymentOutcome s r w (transaction_error, w') =
    (w'.tasks ≡ w.tasks) × (w'.store ≡ log_audit (payment_failed r) w.store)

conclude-PaymentOutcome :
    (s : Setting) (r : Request) (x : Result (List Task × Store)) (w : World)
    → ((y : List Task × Store) → x ≡ ok y → Paid s r w.store y.1)
    → PaymentOutcome s r w (conclude r x w)
unfolding conclude schedule
conclude-PaymentOutcome s r (ok y) w h = h y refl
conclude-PaymentOutcome s r (err (abort code)) w h = refl
conclude-PaymentOutcome s r (err (integrity u)) w h = refl
conclude-PaymentOutcome s r (err (operational t)) w h = (refl, refl)
conclude-PaymentOutcome s r (err other) w h = (refl, refl)

-- A payment is all or nothing, whatever the database does. On success the user's row is credited the
-- amount, the referrer's row the bonus when one is due, no other user's row changes, and the operation
-- is recorded. A refused payment leaves everything as it was; an unexpected error adds an audit entry.
pub process_payment-PaymentOutcome :
    (s : Setting) (r : Request) (w : World)
    → PaymentOutcome s r w (process_payment_with_referral s r w)
unfolding process_payment_with_referral
process_payment-PaymentOutcome s r w =
    conclude-PaymentOutcome s r _ w
      (λ y e. block-Paid s r w.store (session-eq-ok s.fault _ w.store e))
