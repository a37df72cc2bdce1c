-- ===== src/Transactions/Adjust/Once.antt =====
-- A balance code is redeemed once by each user.
use telegramshop_zijjn.Prelude.{
  ℕ, ◌≡◌, ◌≢◌, refl, ◌∙◌, ap, sym, arith, if◌then◌else◌, Bool, true, false, none, some, List, [],
  ◌∷◌, ◌++◌, ℤ, exists, Text, option_map, upper,
}
use telegramshop_zijjn.Prelude.Rows.{exists-append, first-update}
use telegramshop_zijjn.Models.{PromoCode, PromoCodeUsage}
use telegramshop_zijjn.Promo.{
  promo_rule_error, row_error, find_promo, record_usage, is_usage, has_promo_id, has_code, use_once,
}
use telegramshop_zijjn.Store.{
  Store, World, schedule, Fault, Result, ok, err, abort, integrity, operational, other,
}
use telegramshop_zijjn.Store.Commit.{session-eq-ok}
use telegramshop_zijjn.Models.{AuditEntry}
use telegramshop_zijjn.Transactions.Accounts.{is_success}
use telegramshop_zijjn.Transactions.Adjust.{finish, redeem_block, redeem_balance_promo}
use telegramshop_zijjn.Transactions.Adjust.Laws.{Redeemed, redeem_block-Redeemed}

-- The code names a promo that the user has used.
pub record IsUsed (code : Text) (user_id : ℕ) (db : Store) : Type 0 where
  pub promo : PromoCode
  pub found : find_promo code db ≡ some promo
  pub used : exists (is_usage promo.id user_id) db.promo_code_usages ≡ true

same_promo_id : (b : Bool) (p : PromoCode) → (if b then use_once p else p).id ≡ p.id
same_promo_id true p = refl
same_promo_id false p = refl

usage_added :
    (i u : ℕ) (us : List PromoCodeUsage)
    → exists (is_usage i u) (us ++ record { promo_id = i; user_id = u } ∷ []) ≡ true
usage_added i u us =
    ground (arith, exists-append (is_usage i u) us (record { promo_id = i; user_id = u } ∷ []))

Redeemed-IsUsed :
    {user_id now : ℕ} {code : Text} {amount : ℤ} {db db' : Store}
    → Redeemed user_id now code amount db db'
    → IsUsed code user_id db'
unfolding find_promo record_usage
Redeemed-IsUsed {user_id} {now} {code} {amount} {db} {db'} r = record {
  promo = if has_promo_id r.promo.id r.promo then use_once r.promo else r.promo;
  found = rw r.promos (
      first-update (has_promo_id r.promo.id) (has_code (upper code)) use_once (λ _. refl)
        db.promo_codes
      ∙ ap (option_map (λ a. if has_promo_id r.promo.id a then use_once a else a)) r.promo_found);
  used =
      rw (same_promo_id (has_promo_id r.promo.id r.promo) r.promo, r.usages)
        (usage_added r.promo.id user_id db.promo_code_usages);
}

-- The rules refuse a used code.
row_error_used :
    (db : Store) (now : ℕ) (p : PromoCode) (user_id : ℕ)
    → exists (is_usage p.id user_id) db.promo_code_usages ≡ true
    → promo_rule_error db now (some p) user_id none true ≢ none
unfolding promo_rule_error row_error
row_error_used db now p user_id h e = ground arith

redeem_used :
    (code : Text) (user_id now : ℕ) (db : Store)
    → IsUsed code user_id db
    → (x : ℤ × Store) → redeem_block code user_id now db ≢ ok x
redeem_used code user_id now db d x e =
    let r = redeem_block-Redeemed code user_id now db e in
    let q : r.promo ≡ d.promo = some_inj (sym r.promo_found ∙ d.found) in
    row_error_used db now r.promo user_id (rw q d.used) r.allowed
  where
    some_inj : {a b : PromoCode} → some a ≡ some b → a ≡ b
    some_inj h = cc

finish_success :
    (entry : AuditEntry) (i : ℕ) (x : Result (ℤ × Store)) (w : World)
    → is_success (finish entry i x w).0 ≡ true
    → (y : ℤ × Store) × (x ≡ ok y) × ((finish entry i x w).1.store ≡ y.1)
unfolding finish schedule
finish_success entry i (ok y) w h = (y, refl, refl)
finish_success entry i (err (abort c)) w h = absurd (cc)
finish_success entry i (err (integrity c)) w h = absurd (cc)
finish_success entry i (err (operational c)) w h = absurd (cc)
finish_success entry i (err other) w h = absurd (cc)

-- After a user has redeemed a balance code, the same user's next attempt is no success, at any time
-- and whatever the database does.
pub redeem-once :
    (now later : ℕ) (fault fault' : Fault) (code : Text) (user_id : ℕ) (w : World)
    → is_success (redeem_balance_promo now fault code user_id w).0 ≡ true
    → is_success
        (redeem_balance_promo later fault' code user_id
          (redeem_balance_promo now fault code user_id w).1).0
      ≢ true
unfolding redeem_balance_promo
redeem-once now later fault fault' code user_id w h k =
    let (y, e, q) = finish_success _ user_id _ w h in
    let r = redeem_block-Redeemed code user_id now w.store (session-eq-ok fault _ w.store e) in
    let d = Redeemed-IsUsed r in
    let (z, g, _) = finish_success _ user_id _ _ k in
    redeem_used code user_id later _ (rw q d) z (session-eq-ok fault' _ _ g)
