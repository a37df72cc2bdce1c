-- ===== src/Transactions/Solvency.antt =====
-- No transaction that takes money from a balance takes more than it holds.
use telegramshop_zijjn.Prelude.{
  ℕ, ◌==◌, ◌≡◌, sym, ap, ◌∙◌, subst, inl, inr, arith, Option, some, List, ℤ, pos, ◌+ℤ◌, ◌≤ℤ◌, first,
  Text, Bool-cases, int_laws, codes,
}
use telegramshop_zijjn.Models.{User, AuditEntry}
use telegramshop_zijjn.Store.{Store, World, Code, Fault, log_audit}
use telegramshop_zijjn.Transactions.Accounts.{
  Reply, success, failed, transaction_error, has_telegram_id, find_user, credit, charge, deposit,
  withdraw, find_user-charge_self, find_user-charge_other, find_user-credit_self,
  find_user-credit_other,
}
use telegramshop_zijjn.Transactions.Buy.{Attempt, BuyReply, buy_item_transaction}
use telegramshop_zijjn.Transactions.Buy.Laws.{BuyOutcome, buy_item_transaction-BuyOutcome}
use telegramshop_zijjn.Transactions.Adjust.{admin_balance_change, plain_entry}
use telegramshop_zijjn.Transactions.Adjust.Laws.{
  Finished, Adjusted, admin_balance_change-Finished, is_overdraft-nonneg,
}
use telegramshop_zijjn.Transactions.Checkout.{
  Round, CheckoutReply, raised, unavailable, checkout_cart_transaction,
}
use telegramshop_zijjn.Transactions.Checkout.Laws.{paid}
use telegramshop_zijjn.Transactions.Checkout.Outcomes.{
  IsCart, CheckoutOutcome, checkout_cart_transaction-CheckoutOutcome,
}

-- Every balance that can be looked up is zero or more.
abbrev pub IsSolvent : List User → Type 0
IsSolvent users = (i : ℕ) (u : User) → first (has_telegram_id i) users ≡ some u → pos 0 ≤ℤ u.balance

charge-IsSolvent :
    (i : ℕ) (amount : ℤ) (db : Store) {u : User}
    → find_user i db ≡ some u
    → amount ≤ℤ u.balance
    → IsSolvent db.users
    → IsSolvent (charge i amount db).users
charge-IsSolvent i amount db {u} f a s j v h = elim (Bool-cases (i == j)) [
  | inl e ↦
      let q : i ≡ j = ground arith in
      let k : withdraw amount u ≡ v =
        same (sym (find_user-charge_self i amount db f))
          (subst (λ k. find_user k (charge i amount db) ≡ some v) (sym q) h) in
      rw (← k) (grind int_laws)
  | inr e ↦ s j v (sym (find_user-charge_other i j amount db (ground arith)) ∙ h)
]
  where
    same : {a b : User} {o : Option User} → some a ≡ o → o ≡ some b → a ≡ b
    same h k = cc

credit-IsSolvent :
    (i : ℕ) (amount : ℤ) (db : Store) {u : User}
    → find_user i db ≡ some u
    → pos 0 ≤ℤ u.balance +ℤ amount
    → IsSolvent db.users
    → IsSolvent (credit i amount db).users
credit-IsSolvent i amount db {u} f a s j v h = elim (Bool-cases (i == j)) [
  | inl e ↦
      let q : i ≡ j = ground arith in
      let k : deposit amount u ≡ v =
        same (sym (find_user-credit_self i amount db f))
          (subst (λ k. find_user k (credit i amount db) ≡ some v) (sym q) h) in
      rw (← k) a
  | inr e ↦ s j v (sym (find_user-credit_other i j amount db (ground arith)) ∙ h)
]
  where
    same : {a b : User} {o : Option User} → some a ≡ o → o ≡ some b → a ≡ b
    same h k = cc

log_audit-users : (db db' : Store) (e : AuditEntry) → db' ≡ log_audit e db → db'.users ≡ db.users
unfolding log_audit
log_audit-users db db' e h = ap (λ d. d.users) h

-- No purchase brings a balance below zero.
pub buy_item_transaction-IsSolvent :
    (env : ℕ → Attempt) (buyer : ℕ) (name : Text) (code : Option Text) (w : World)
    → IsSolvent w.store.users
    → IsSolvent (buy_item_transaction env buyer name code w).1.store.users
buy_item_transaction-IsSolvent env buyer name code w s =
    go _ (buy_item_transaction-BuyOutcome env buyer name code w)
  where
    go : (r : BuyReply) → BuyOutcome buyer name w r → IsSolvent r.1.store.users
    go (success p, w') b =
        subst IsSolvent (sym b.sale.users)
          (charge-IsSolvent buyer p.price w.store b.user_found b.sale.affordable s)
    go (failed c, w') b = subst (λ x. IsSolvent x.store.users) (sym b) s
    go (transaction_error, w') (t, inl e) = subst (λ d. IsSolvent d.users) (sym e) s
    go (transaction_error, w') (t, inr e) =
        subst IsSolvent (sym (log_audit-users w.store w'.store _ e)) s

-- No checkout of a cart without empty lines brings a balance below zero.
pub checkout_cart_transaction-IsSolvent :
    (env : ℕ → Round) (user_id : ℕ) (expected : Option ℤ) (w : World)
    → IsCart w.store.cart_items
    → IsSolvent w.store.users
    → IsSolvent (checkout_cart_transaction env user_id expected w).1.store.users
checkout_cart_transaction-IsSolvent env user_id expected w c s =
    go _ (checkout_cart_transaction-CheckoutOutcome env user_id expected w c)
  where
    go : (r : CheckoutReply) → CheckoutOutcome user_id expected w r → IsSolvent r.1.store.users
    go (success ds, w') b =
        subst IsSolvent (sym b.users)
          (charge-IsSolvent user_id (paid ds) w.store b.found b.affordable s)
    go (failed (raised code), w') b = subst (λ x. IsSolvent x.store.users) (sym b) s
    go (failed unavailable, w') b = subst IsSolvent (sym b.0.users) s
    go (transaction_error, w') (t, inl e) = subst (λ d. IsSolvent d.users) (sym e) s
    go (transaction_error, w') (t, inr e) =
        subst IsSolvent (sym (log_audit-users w.store w'.store _ e)) s

-- No change by an administrator, up or down, brings a balance below zero.
pub admin_balance_change-IsSolvent :
    (now : ℕ) (fault : Fault) (i : ℕ) (amount : ℤ) (w : World)
    → IsSolvent w.store.users
    → IsSolvent (admin_balance_change now fault i amount w).1.store.users
admin_balance_change-IsSolvent now fault i amount w s =
    go _ (admin_balance_change-Finished now fault i amount w)
  where
    go :
        (r : Reply (Unit {0}) Code × World)
        → Finished
            (λ _. Adjusted i amount now)
            (plain_entry (codes "admin_balance_change_failed") i)
            w
            r
        → IsSolvent r.1.store.users
    go (success a, w') b = subst IsSolvent (sym b.users) (
        credit-IsSolvent i amount w.store b.found
          (is_overdraft-nonneg b.user.balance amount (s i b.user b.found) b.covered) s)
    go (failed code, w') b = subst (λ x. IsSolvent x.store.users) (sym b) s
    go (transaction_error, w') (t, e) =
        subst IsSolvent (sym (log_audit-users w.store w'.store _ e)) s
