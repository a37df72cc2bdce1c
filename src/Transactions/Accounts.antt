-- ===== src/Transactions/Accounts.antt =====
-- The user rows under a transaction: a balance is read, credited and charged under its row lock.
use telegramshop_zijjn.Prelude.{
  ℕ, ◌==◌, ◌≡◌, ◌≢◌, Bool, true, false, Option, none, some, ℤ, ◌+ℤ◌, ◌-ℤ◌, first, option_map,
  update_where, arith, refl, subst, ◌∙◌, inl, inr, Bool-cases, if◌then◌else◌,
}
use telegramshop_zijjn.Prelude.Rows.{
  first-update, first-update_self, first-update_other, first-holds,
}
use telegramshop_zijjn.Models.{User}
use telegramshop_zijjn.Store.{Store}

-- How a transaction reports: a result, the code that it raised, or "transaction_error".
pub data Reply {ℓ} (A : Type ℓ) (C : Type 0) : Type ℓ where
  success : A → Reply A C
  failed : C → Reply A C
  transaction_error : Reply A C

abbrev pub is_success : {A C : Type 0} → Reply A C → Bool
is_success (success a) = true
is_success (failed c) = false
is_success transaction_error = false

abbrev pub has_telegram_id : ℕ → User → Bool
has_telegram_id i u = u.telegram_id == i

abbrev pub find_user : ℕ → Store → Option User
find_user i db = first (has_telegram_id i) db.users

abbrev pub deposit : ℤ → User → User
deposit amount u = record u { balance = u.balance +ℤ amount }

abbrev pub withdraw : ℤ → User → User
withdraw amount u = record u { balance = u.balance -ℤ amount }

-- `user.balance += amount`, on the row of the locked user.
unfoldable pub credit : ℕ → ℤ → Store → Store
credit i amount db = record db {
  users = update_where (has_telegram_id i) (deposit amount) db.users;
}

-- `user.balance -= amount`
unfoldable pub charge : ℕ → ℤ → Store → Store
charge i amount db = record db {
  users = update_where (has_telegram_id i) (withdraw amount) db.users;
}

-- The balance that the users table shows.
abbrev pub balance_of : ℕ → Store → Option ℤ
balance_of i db = option_map (λ u. u.balance) (find_user i db)

apart : (i j : ℕ) → i ≢ j → (u : User) → has_telegram_id i u ≡ true → has_telegram_id j u ≡ false
apart i j h u e = ground arith

pub find_user-credit_self :
    (i : ℕ) (amount : ℤ) (db : Store) {u : User}
    → find_user i db ≡ some u
    → find_user i (credit i amount db) ≡ some (deposit amount u)
unfolding credit
find_user-credit_self i amount db h =
    first-update_self (has_telegram_id i) (deposit amount) (λ u. refl) db.users h

pub find_user-credit_other :
    (i j : ℕ) (amount : ℤ) (db : Store) → i ≢ j → find_user j (credit i amount db) ≡ find_user j db
unfolding credit
find_user-credit_other i j amount db h =
    first-update_other (has_telegram_id i) (has_telegram_id j) (deposit amount) (λ u. refl)
      (apart i j h) db.users

pub find_user-charge_self :
    (i : ℕ) (amount : ℤ) (db : Store) {u : User}
    → find_user i db ≡ some u
    → find_user i (charge i amount db) ≡ some (withdraw amount u)
unfolding charge
find_user-charge_self i amount db h =
    first-update_self (has_telegram_id i) (withdraw amount) (λ u. refl) db.users h

pub find_user-charge_other :
    (i j : ℕ) (amount : ℤ) (db : Store) → i ≢ j → find_user j (charge i amount db) ≡ find_user j db
unfolding charge
find_user-charge_other i j amount db h =
    first-update_other (has_telegram_id i) (has_telegram_id j) (withdraw amount) (λ u. refl)
      (apart i j h) db.users

pub option_map-id : {A : Type 0} (o : Option A) → o ≡ option_map (λ v. v) o
option_map-id none = refl
option_map-id (some u) = refl

credit_self :
    (i : ℕ) (amount : ℤ) (db : Store)
    → find_user i (credit i amount db) ≡ option_map (deposit amount) (find_user i db)
unfolding credit
credit_self i amount db =
    first-update (has_telegram_id i) (has_telegram_id i) (deposit amount) (λ _. refl) db.users
    ∙ found (first (has_telegram_id i) db.users) (λ u e. first-holds (has_telegram_id i) db.users e)
  where
    found :
        (o : Option User)
        → ((u : User) → o ≡ some u → has_telegram_id i u ≡ true)
        → option_map (λ a. if has_telegram_id i a then deposit amount a else a) o
          ≡ option_map (deposit amount) o
    found none h = refl
    found (some u) h = rw (h u refl)

-- Who a credit changes.
pub find_user-credit :
    (i j : ℕ) (amount : ℤ) (db : Store)
    → find_user j (credit i amount db)
      ≡ option_map (λ v. if i == j then deposit amount v else v) (find_user j db)
find_user-credit i j amount db = elim (Bool-cases (i == j)) [
  | inl e ↦
      let q : i ≡ j = ground arith in
      rw e (
        subst (λ k. find_user k (credit i amount db) ≡ option_map (deposit amount) (find_user k db))
          q (credit_self i amount db))
  | inr e ↦
      rw e (find_user-credit_other i j amount db (ground arith) ∙ option_map-id (find_user j db))
]
