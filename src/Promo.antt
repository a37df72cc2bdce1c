-- ===== src/Promo.antt =====
-- The rules of promo codes: `promo_rule_error` and `validate_promo_for_item` of
-- bot/database/methods/read.py, `create_promo_code`, `toggle_promo_code`, `delete_promo_code`.
pub mod Rules
use telegramshop_zijjn.Prelude.{
  ℕ, suc, ◌+◌, ◌==◌, ltb, leb, if◌then◌else◌, Bool, true, false, not, ◌&&◌, ◌||◌, Option, none,
  some, List, [], ◌∷◌, ◌++◌, Text, text_eq, upper, ℤ, first, exists, update_where, delete_where,
}
use telegramshop_zijjn.Models.{
  Good, Moment, naive, aware, DiscountType, percent, fixed, balance, Scope, global, category, item,
  PromoCode, PromoCodeUsage, promo_scope_for,
}
use telegramshop_zijjn.Store.{Store}

-- The canonical codes.
pub data RuleError : Type 0 where
  not_found inactive wrong_type expired max_uses already_used wrong_item wrong_category : RuleError

abbrev pub is_balance : DiscountType → Bool
is_balance balance = true
is_balance _ = false

abbrev pub is_item : Scope → Bool
is_item item = true
is_item _ = false

abbrev pub is_category : Scope → Bool
is_category category = true
is_category _ = false

abbrev pub is_none : Option ℕ → Bool
is_none none = true
is_none (some _) = false

abbrev pub bool_eq : Bool → Bool → Bool
bool_eq true b = b
bool_eq false b = not b

abbrev pub instant : Moment → ℕ
instant (naive t) = t
instant (aware t) = t

-- `expires_at is not None and expires_at < now`; a naive datetime is taken for UTC.
abbrev pub is_expired : Option Moment → ℕ → Bool
is_expired none now = false
is_expired (some m) now = ltb (instant m) now

-- `bound and (goods is None or bound != goods.key)`; an id of 0 is falsy.
abbrev pub mismatch : Option ℕ → Option ℕ → Bool
mismatch none key = false
mismatch (some i) none = not (i == 0)
mismatch (some i) (some j) = not (i == 0) && not (i == j)

abbrev pub good_id : Option Good → Option ℕ
good_id none = none
good_id (some g) = some g.id

abbrev pub good_category : Option Good → Option ℕ
good_category none = none
good_category (some g) = some g.category_id

pub binding_error : PromoCode → Option Good → Option RuleError
binding_error p goods =
    if is_item p.scope && is_none p.item_id
    then some wrong_item
    else if is_category p.scope && is_none p.category_id
    then some wrong_category
    else if mismatch p.item_id (good_id goods)
    then some wrong_item
    else if mismatch p.category_id (good_category goods)
    then some wrong_category
    else none

-- The usage rows of one promo and user.
abbrev pub is_usage : ℕ → ℕ → PromoCodeUsage → Bool
is_usage promo_id user_id u = u.promo_id == promo_id && u.user_id == user_id

abbrev pub exhausted : PromoCode → Bool
exhausted p = ltb 0 p.max_uses && leb p.max_uses p.current_uses

unfoldable pub row_error : Store → ℕ → PromoCode → ℕ → Option Good → Bool → Option RuleError
row_error db now p user_id goods require_balance =
    if not p.is_active
    then some inactive
    else if not (bool_eq require_balance (is_balance p.discount_type))
    then some wrong_type
    else if is_expired p.expires_at now
    then some expired
    else if exhausted p
    then some max_uses
    else if exists (is_usage p.id user_id) db.promo_code_usages
    then some already_used
    else if require_balance
    then none
    else binding_error p goods

unfoldable pub promo_rule_error :
    Store → ℕ → Option PromoCode → ℕ → Option Good → Bool → Option RuleError
promo_rule_error db now none user_id goods require_balance = some not_found
promo_rule_error db now (some p) user_id goods require_balance =
    row_error db now p user_id goods require_balance

abbrev pub has_code : Text → PromoCode → Bool
has_code code p = text_eq p.code code

abbrev pub has_promo_id : ℕ → PromoCode → Bool
has_promo_id i p = p.id == i

-- `select(PromoCodes).where(PromoCodes.code == code.upper())`, the first row.
unfoldable pub find_promo : Text → Store → Option PromoCode
find_promo code db = first (has_code (upper code)) db.promo_codes

abbrev pub use_once : PromoCode → PromoCode
use_once p = record p { current_uses = p.current_uses + 1 }

-- `promo.current_uses += 1` and the usage row.
unfoldable pub record_usage : PromoCode → ℕ → Store → Store
record_usage p user_id db = record db {
  promo_codes = update_where (has_promo_id p.id) use_once db.promo_codes;
  promo_code_usages = db.promo_code_usages ++ record { promo_id = p.id; user_id = user_id } ∷ [];
}

-- `validate_promo_for_item`: the promo itself, or the rule that it breaks.
pub data Verdict : Type 0 where
  valid : PromoCode → Verdict
  invalid : RuleError → Verdict

abbrev verdict : Option PromoCode → Option RuleError → Verdict
verdict promo (some e) = invalid e
verdict (some p) none = valid p
verdict none none = invalid not_found

pub validate_promo_for_item : Store → ℕ → Text → Text → ℕ → Verdict
validate_promo_for_item db now code item_name user_id =
    let promo = find_promo code db in
    let goods = first (λ g. text_eq g.name item_name) db.goods in
    verdict promo (promo_rule_error db now promo user_id goods false)

-- `create_promo_code`: ValueError for two bindings, None for a code that is taken, else the new id.
pub data Created : Type 0 where
  value_error taken : Created
  created : ℕ → Created

abbrev both_bound : Option ℕ → Option ℕ → Bool
both_bound c i = not (is_none c) && not (is_none i)

pub create_promo_code :
    Text → DiscountType → ℤ → ℕ → Option Moment → Option ℕ → Option ℕ → Store → Created × Store
create_promo_code code t value limit expires_at category_id item_id db =
    if both_bound category_id item_id
    then (value_error, db)
    else if exists (has_code (upper code)) db.promo_codes
    then (taken, db)
    else (
      created db.next_id,
      record db { promo_codes = db.promo_codes ++ row ∷ []; next_id = suc db.next_id },
    )
  where
    row : PromoCode
    row = record {
      id = db.next_id;
      code = upper code;
      discount_type = t;
      discount_value = value;
      scope = promo_scope_for category_id item_id;
      max_uses = limit;
      current_uses = 0;
      expires_at = expires_at;
      category_id = category_id;
      item_id = item_id;
      is_active = true;
    }

abbrev flip : PromoCode → PromoCode
flip p = record p { is_active = not p.is_active }

-- The new `is_active`, or None.
pub toggle_promo_code : ℕ → Store → Option Bool × Store
toggle_promo_code i db = elim (first (has_promo_id i) db.promo_codes) [
  | none ↦ (none, db)
  | some p ↦ (
    some (not p.is_active),
    record db { promo_codes = update_where (has_promo_id i) flip db.promo_codes },
  )
]

-- The usages go with the promo (ON DELETE CASCADE).
pub delete_promo_code : ℕ → Store → Bool × Store
delete_promo_code i db = elim (first (has_promo_id i) db.promo_codes) [
  | none ↦ (false, db)
  | some p ↦ (
    true,
    record db {
      promo_codes = delete_where (has_promo_id i) db.promo_codes;
      promo_code_usages = delete_where (λ u. u.promo_id == i) db.promo_code_usages;
    },
  )
]
