-- ===== src/Recovery/Rounds.antt =====
-- A round of recovery takes no credit back.
use telegramshop_zijjn.Prelude.{
  ℕ, ◌≤◌, ◌≡◌, ◌≢◌, refl, ap, subst, ◌∙◌, arith, if◌then◌else◌, Bool, true, false, ◌&&◌, Option,
  some, List, [], ◌∷◌, ℤ, Text, first, count, All, In, option_map, select_where, update_where, inl,
  inr,
}
use telegramshop_zijjn.Prelude.Rows.{first-update, first-append, select-In}
use telegramshop_zijjn.Prelude.Counts.{count-update}
use telegramshop_zijjn.Prelude.Members.{first-In, unique-In}
use telegramshop_zijjn.Models.{Payment, PaymentStatus, pending, succeeded, failed}
use telegramshop_zijjn.Store.{
  Store, World, log_audit, schedule, Result, ok, err, abort, integrity, operational, other, Task,
}
use telegramshop_zijjn.Store.Commit.{session-eq-ok}
use telegramshop_zijjn.Transactions.Payment.{
  Setting, Request, is_payment, is_succeeded, mark_succeeded, claim_payment, payment_block,
  conclude, process_payment_with_referral,
}
use telegramshop_zijjn.Transactions.Payment.Settled.{
  IsSettled, claim-payments, block_parts, credit_user_payments,
}
use telegramshop_zijjn.Recovery.{
  Answer, paid, ended, unknown, is_pending, is_expired, mark_failed, expire_payments,
  is_recoverable, has_payment_id, mark_payment_failed, confirmation, settle_payment, settle_all,
  expired_world, recover_pending_payments,
}

module _ (provider external_id : Text) where
  abbrev named : Store → Option Payment
  named db = first (is_payment provider external_id) db.payments

  -- The payment is there under an id, and is credited.
  record Kept (i : ℕ) (db : Store) : Type 0 where
    row : Payment
    found : named db ≡ some row
    done : is_succeeded row.status ≡ true
    numbered : row.id ≡ i

  Kept-payments : {i : ℕ} {db db' : Store} → db'.payments ≡ db.payments → Kept i db → Kept i db'
  Kept-payments e k = record {
    row = k.row;
    found = rw e k.found;
    done = k.done;
    numbered = k.numbered;
  }

  -- An update that leaves credited rows alone, or the row of this payment.
  Kept-update :
      (q : Payment → Bool) (f : Payment → Payment) (i : ℕ) (db : Store)
      → ((p : Payment) → is_payment provider external_id (f p) ≡ is_payment provider external_id p)
      → (k : Kept i db) → q k.row ≡ false
      → Kept i (record db { payments = update_where q f db.payments })
  Kept-update q f i db keep k n = record {
    row = k.row;
    found =
        first-update q (is_payment provider external_id) f keep db.payments
        ∙ ap (option_map (λ a. if q a then f a else a)) k.found
        ∙ rw n refl;
    done = k.done;
    numbered = k.numbered;
  }

  block-Kept :
      (s : Setting) (r : Request) (i : ℕ) (db : Store) {x : List Task × Store}
      → payment_block s r db ≡ ok x
      → Kept i db
      → Kept i x.1
  block-Kept s r i db {x} h k =
      let (db1, q, c) = block_parts s r db h in
      Kept-payments (credit_user_payments s r _ db1 c) (claimed db1 q)
    where
      marked :
          (b : Bool) (p : Payment)
          → is_succeeded p.status ≡ true
          → is_succeeded (if b then mark_succeeded p else p).status ≡ true
      marked true p h = refl
      marked false p h = h

      same_id : (b : Bool) (p : Payment) → (if b then mark_succeeded p else p).id ≡ p.id
      same_id true p = refl
      same_id false p = refl

      claimed : (db1 : Store) → claim_payment s r db ≡ ok db1 → Kept i db1
      claimed db1 q = elim (claim-payments s r db q) [
        | inl (e, y) ↦ record {
          row = k.row;
          found = rw (y, first-append (is_payment provider external_id), k.found) refl;
          done = k.done;
          numbered = k.numbered;
        }
        | inr (p, e, _, y) ↦
            let b = is_payment r.provider r.external_id k.row in
            record {
              row = if b then mark_succeeded k.row else k.row;
              found =
                  rw
                    (
                      y,
                      first-update (is_payment r.provider r.external_id)
                          (is_payment provider external_id) mark_succeeded (λ _. refl),
                      k.found,
                    )
                    refl;
              done = marked b k.row k.done;
              numbered = same_id b k.row ∙ k.numbered;
            }
      ]

  conclude-Kept :
      (r : Request) (i : ℕ) (x : Result (List Task × Store)) (w : World)
      → ((y : List Task × Store) → x ≡ ok y → Kept i y.1)
      → Kept i w.store
      → Kept i (conclude r x w).1.store
  unfolding conclude schedule log_audit
  conclude-Kept r i (ok y) w h k = h y refl
  conclude-Kept r i (err (abort code)) w h k = k
  conclude-Kept r i (err (integrity u)) w h k = k
  conclude-Kept r i (err (operational t)) w h k = Kept-payments refl k
  conclude-Kept r i (err other) w h k = Kept-payments refl k

  settle_payment-Kept :
      (s : Setting) (percent : ℤ) (a : Answer) (p : Payment) (i : ℕ) (w : World)
      → p.id ≢ i
      → Kept i w.store
      → Kept i (settle_payment s percent a p w).store
  unfolding settle_payment process_payment_with_referral mark_payment_failed
  settle_payment-Kept s percent paid p i w n k =
      conclude-Kept (confirmation percent p) i _ w
        (λ y e.
          block-Kept s (confirmation percent p) i w.store (session-eq-ok s.fault _ w.store e) k)
        k
  settle_payment-Kept s percent ended p i w n k =
      Kept-update (has_payment_id p.id) mark_failed i w.store (λ _. refl) k (apart k.row k.numbered)
    where
      apart : (r : Payment) → r.id ≡ i → has_payment_id p.id r ≡ false
      apart r e = ground arith
  settle_payment-Kept s percent unknown p i w n k = k

  settle_all-Kept :
      (setting : Payment → Setting) (percent : ℤ) (answer : Payment → Answer) (ps : List Payment)
      (i : ℕ) (w : World)
      → All (λ p. p.id ≢ i) ps
      → Kept i w.store
      → Kept i (settle_all setting percent answer ps w).store
  unfolding settle_all
  settle_all-Kept setting percent answer [] i w a k = k
  settle_all-Kept setting percent answer (p ∷ ps) i w a k =
      settle_all-Kept setting percent answer ps i _ a.1
        (settle_payment-Kept (setting p) percent (answer p) p i w a.0 k)

credited-not_pending : (st : PaymentStatus) → is_succeeded st ≡ true → is_pending st ≡ false
credited-not_pending pending h = absurd (cc)
credited-not_pending succeeded h = refl
credited-not_pending failed h = absurd (cc)

All-from : {A : Type 0} (P : A → Type 0) (xs : List A) → ((a : A) → In a xs → P a) → All P xs
All-from P [] h = tt
All-from P (x ∷ xs) h = (h x (inl refl), All-from P xs (λ a k. h a (inr k)))

-- What a round goes over is pending, and so is not the credited payment.
listed_apart :
    (now i : ℕ) (ps : List Payment) (row : Payment)
    → count (has_payment_id i) ps ≤ 1
    → In row ps
    → row.id ≡ i
    → is_succeeded row.status ≡ true
    → All (λ p. p.id ≢ i) (select_where (is_recoverable now) ps)
listed_apart now i ps row u h e d = All-from _ (select_where (is_recoverable now) ps) each
  where
    each : (p : Payment) → In p (select_where (is_recoverable now) ps) → p.id ≢ i
    each p k q =
        let s = select-In (is_recoverable now) ps k in
        let y : p ≡ row = unique-In (has_payment_id i) ps u (ground arith) (ground arith) s.0 h in
        let z = subst (λ x. is_recoverable now x ≡ true) y s.1 in
        let v = credited-not_pending row.status d in absurd (ground arith)

-- A round of recovery leaves every credited payment credited, whatever the providers answer and
-- whatever the transactions of the round meet, where no two payments share an id: such a payment is
-- neither expired nor marked as failed, and so cannot be credited again. Nothing else writes to the
-- payments during the round.
pub recover_pending_payments-IsSettled :
    (now : ℕ) (setting : Payment → Setting) (percent : ℤ) (answer : Payment → Answer)
    (provider external_id : Text) (w : World)
    → ((i : ℕ) → count (has_payment_id i) w.store.payments ≤ 1)
    → IsSettled provider external_id w.store
    → IsSettled provider external_id (recover_pending_payments now setting percent answer w).store
unfolding recover_pending_payments expire_payments
recover_pending_payments-IsSettled now setting percent answer provider external_id w u d =
    let i = d.payment.id in
    let expiring = λ (p : Payment). is_pending p.status && is_expired now p in
    let k : Kept provider external_id i w.store = record {
      row = d.payment;
      found = d.found;
      done = d.done;
      numbered = refl;
    } in
    let v = credited-not_pending d.payment.status d.done in
    let e =
      Kept-update provider external_id expiring mark_failed i w.store (λ _. refl) k
        (ground arith) in
    let after = expired_world now w in
    let once : count (has_payment_id i) after.store.payments ≤ 1 = omega (
      arith,
      u i,
      count-update (has_payment_id i) expiring mark_failed w.store.payments (λ _. refl),
    ) in
    let kept =
      settle_all-Kept provider external_id setting percent answer
        (select_where (is_recoverable now) after.store.payments) i after
        (listed_apart now i after.store.payments e.row once
          (first-In (is_payment provider external_id) after.store.payments e.found) e.numbered
          e.done)
        e in
    record { payment = kept.row; found = kept.found; done = kept.done }
