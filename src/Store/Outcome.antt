-- ===== src/Store/Outcome.antt =====
-- How a transaction ends: with a value, or by an exception.
use telegramshop_zijjn.Prelude.{◌≡◌, refl, ◌⊎◌, inl, inr, Bool, true, false, Option, none, some}

-- The failure codes that the transactions raise as `_Abort`, and the error keys of the promo rules,
-- spelled like the strings of the source (a dot as `_`).
pub data Code : Type 0 where
  user_not_found item_not_found insufficient_funds out_of_stock cart_empty price_changed : Code
  promo_invalid promo_expired promo_max_uses promo_already_used : Code
  promo_wrong_item promo_wrong_category promo_expired_during_checkout : Code
  promo_not_found promo_inactive promo_not_balance_type promo_max_uses_reached : Code
  promo_balance_code_for_profile already_processed : Code

-- `integrity unique_id` is an IntegrityError whose text names `unique_id` or not; `operational
-- transient` an OperationalError or DBAPIError that reports a deadlock or a serialization failure or
-- not; `other` is any other exception.
pub data Failure : Type 0 where
  abort : Code → Failure
  integrity operational : Bool → Failure
  other : Failure

pub data Result {ℓ} (A : Type ℓ) : Type ℓ where
  ok : A → Result A
  err : Failure → Result A

-- The errors that the database adds to a transaction by itself.
pub data Fault : Type 0 where
  calm : Fault
  early late : Failure → Fault

-- What follows a step does not run once an exception is raised.
infixl 5 ◌>>=◌ ◌>>◌
abbrev pub ◌>>=◌ {ℓ κ} : {X : Type ℓ} {Y : Type κ} → Result X → (X → Result Y) → Result Y
err failure >>= next = err failure
ok x >>= next = next x

abbrev pub ◌>>◌ {κ} : {Y : Type κ} → Result (Unit {0}) → Result Y → Result Y
step >> rest = step >>= λ _. rest

-- `if b: raise _Abort(c)`
abbrev pub abort_if : Bool → Code → Result (Unit {0})
abort_if true c = err (abort c)
abort_if false c = ok tt

-- `if not row: raise _Abort(c)`
abbrev pub or_abort {ℓ} : {A : Type ℓ} → Option A → Code → Result A
or_abort none c = err (abort c)
or_abort (some a) c = ok a

pub Result-cases {ℓ} :
    {A : Type ℓ} (r : Result A) → ((e : Failure) × (r ≡ err e)) ⊎ ((a : A) × (r ≡ ok a))
Result-cases (ok a) = inr (a, refl)
Result-cases (err e) = inl (e, refl)
