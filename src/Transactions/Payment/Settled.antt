-- ===== src/Transactions/Payment/Settled.antt =====
-- A payment is settled by the transaction that credits it, and stays settled.
use telegramshop_zijjn.Prelude.{
  ℕ, ◌≡◌, refl, ◌⊎◌, inl, inr, arith, if◌then◌else◌, Bool, true, false, Option, none, some, List,
  [], ◌∷◌, ◌++◌, first, update_where, Text, text_eq_refl, Option-cases,
}
use telegramshop_zijjn.Prelude.Rows.{first-update, first-update_self, first-append}
use telegramshop_zijjn.Models.{User, Payment}
use telegramshop_zijjn.Store.{
  Store, log_audit, ok, err, abort, already_processed, Result-cases, Task,
}
use telegramshop_zijjn.Transactions.Accounts.{find_user, credit}
use telegramshop_zijjn.Transactions.Payment.{
  Setting, Request, is_payment, is_succeeded, mark_succeeded, claim_payment, new_payment,
  referrer_of, operation_of, credit_user, pay_bonus, refer, record_operation, payment_block,
}

-- The payment that the provider knows by this id has been credited.
pub record IsSettled (provider external_id : Text) (db : Store) : Type 0 where
  pub payment : Payment
  pub found : first (is_payment provider external_id) db.payments ≡ some payment
  pub done : is_succeeded payment.status ≡ true

is_payment-new :
    (s : Setting) (r : Request) (i : ℕ)
    → is_payment r.provider r.external_id (new_payment s r i) ≡ true
is_payment-new s r i = ground (arith, text_eq_refl r.provider, text_eq_refl r.external_id)

-- What the first step does to the payments.
pub claim-payments :
    (s : Setting) (r : Request) (db : Store) {db1 : Store}
    → claim_payment s r db ≡ ok db1
    → ((first (is_payment r.provider r.external_id) db.payments ≡ none)
        × (db1.payments ≡ db.payments ++ new_payment s r db.next_id ∷ []))
      ⊎ ((p : Payment) × (first (is_payment r.provider r.external_id) db.payments ≡ some p)
          × (is_succeeded p.status ≡ false)
          × (db1.payments
              ≡ update_where (is_payment r.provider r.external_id) mark_succeeded db.payments))
unfolding claim_payment
claim-payments s r db {db1} h =
    elim (Option-cases (first (is_payment r.provider r.external_id) db.payments)) [
      | inl e ↦ inl (e, ground arith)
      | inr (p, e) ↦ inr (p, e, ground arith, ground arith)
    ]

claim-IsSettled :
    (s : Setting) (r : Request) (db : Store) {db1 : Store}
    → claim_payment s r db ≡ ok db1
    → IsSettled r.provider r.external_id db1
claim-IsSettled s r db {db1} h = elim (claim-payments s r db h) [
  | inl (e, q) ↦ record {
    payment = new_payment s r db.next_id;
    found =
        rw (q, first-append (is_payment r.provider r.external_id), e, is_payment-new s r db.next_id)
          refl;
    done = refl;
  }
  | inr (p, e, _, q) ↦ record {
    payment = mark_succeeded p;
    found = rw q (
        first-update_self (is_payment r.provider r.external_id) mark_succeeded (λ _. refl)
          db.payments e);
    done = refl;
  }
]

mark_done :
    (b : Bool) (p : Payment)
    → is_succeeded p.status ≡ true
    → is_succeeded (if b then mark_succeeded p else p).status ≡ true
mark_done true p h = refl
mark_done false p h = h

-- A later claim of any payment leaves it settled.
claim-keeps :
    (s : Setting) (r : Request) (provider external_id : Text) (db : Store) {db1 : Store}
    → claim_payment s r db ≡ ok db1
    → IsSettled provider external_id db
    → IsSettled provider external_id db1
claim-keeps s r provider external_id db {db1} h d = elim (claim-payments s r db h) [
  | inl (e, q) ↦ record {
    payment = d.payment;
    found = rw (q, first-append (is_payment provider external_id), d.found) refl;
    done = d.done;
  }
  | inr (p, e, _, q) ↦ record {
    payment =
        if is_payment r.provider r.external_id d.payment
        then mark_succeeded d.payment
        else d.payment;
    found =
        rw
          (
            q,
            first-update (is_payment r.provider r.external_id) (is_payment provider external_id)
                mark_succeeded (λ _. refl),
            d.found,
          )
          refl;
    done = mark_done _ d.payment d.done;
  }
]

-- The rest of the transaction does not touch the payments.
refer_payments : (r : Request) (o : Option ℕ) (db : Store) → (refer r o db).payments ≡ db.payments
unfolding refer pay_bonus credit log_audit
refer_payments r none db = refl
refer_payments r (some i) db = ground arith

pub credit_user_payments :
    (s : Setting) (r : Request) (u : Option User) (db : Store) {x : List Task × Store}
    → credit_user s r u db ≡ ok x
    → x.1.payments ≡ db.payments
unfolding credit_user record_operation credit
credit_user_payments s r none db h = cc
credit_user_payments s r (some u) db {x} h =
    let db1 = record_operation (operation_of s r) (credit r.user_id r.amount db) in
    ground (arith, refer_payments r (referrer_of u.referral_id r.user_id) db1)

pub IsSettled-payments :
    {provider external_id : Text} {db db' : Store}
    → db'.payments ≡ db.payments
    → IsSettled provider external_id db
    → IsSettled provider external_id db'
IsSettled-payments e d = record { payment = d.payment; found = rw e d.found; done = d.done }

-- The block's first step and the rest.
pub block_parts :
    (s : Setting) (r : Request) (db : Store) {x : List Task × Store}
    → payment_block s r db ≡ ok x
    → (db1 : Store) × (claim_payment s r db ≡ ok db1)
      × (credit_user s r (find_user r.user_id db1) db1 ≡ ok x)
unfolding payment_block
block_parts s r db {x} h = elim (Result-cases (claim_payment s r db)) [
  | inl (e, q) ↦ absurd (ground arith)
  | inr (db1, q) ↦ (db1, q, ground arith)
]

pub block-IsSettled :
    (s : Setting) (r : Request) (db : Store) {x : List Task × Store}
    → payment_block s r db ≡ ok x
    → IsSettled r.provider r.external_id x.1
block-IsSettled s r db h =
    let (db1, q, k) = block_parts s r db h in
    IsSettled-payments (credit_user_payments s r _ db1 k) (claim-IsSettled s r db q)

pub block-keeps :
    (s : Setting) (r : Request) (provider external_id : Text) (db : Store) {x : List Task × Store}
    → payment_block s r db ≡ ok x
    → IsSettled provider external_id db
    → IsSettled provider external_id x.1
block-keeps s r provider external_id db h d =
    let (db1, q, k) = block_parts s r db h in
    IsSettled-payments (credit_user_payments s r _ db1 k)
      (claim-keeps s r provider external_id db q d)

-- A settled payment is refused.
pub block_settled :
    (s : Setting) (r : Request) (db : Store)
    → IsSettled r.provider r.external_id db
    → payment_block s r db ≡ err (abort already_processed)
unfolding payment_block claim_payment
block_settled s r db d = let f = d.found in let g = d.done in ground arith
