-- ===== src/Tests.antt =====
-- Examples: a small shop on which the theorems are applied.
mod Caching
mod Staff
mod Shelves
mod Wheel
mod Doors
mod Arrears
use telegramshop_zijjn.Prelude.{
  Text, All, first, count, text_eq, text_eq→eq, ℕ, zero, suc, ◌+◌, ◌≤◌, ◌≡◌, ◌≢◌, ◌↔◌, refl, arith,
  true, false, none, some, [], ◌∷◌, pos, negsuc, ◌+ℤ◌, ◌≤ℤ◌, inl, length, codes, if◌then◌else◌, ◌⊎◌,
  ◌==◌, ◌-ℤ◌, upper, List,
}
use telegramshop_zijjn.Models.{
  Role, User, Good, balance, at, aware, ItemValue, CartItem, PromoCode, percent, fixed, global,
}
use telegramshop_zijjn.Pricing.{split_amount, divmod, apply_promo_discount, effective_price}
use telegramshop_zijjn.Pricing.Split.{sum_ℤ, NearlyEqual, split_amount_lem}
use telegramshop_zijjn.Pricing.Bounds.{InRange, apply_promo_discount_range, effective_price_range}
use telegramshop_zijjn.Promo.{promo_rule_error, row_error, find_promo}
use telegramshop_zijjn.Promo.Rules.{Usable, promo_rule_error-Usable}
use telegramshop_zijjn.Store.{session, Store, World, calm, early, late, integrity, operational}
use telegramshop_zijjn.Transactions.Accounts.{is_success}
use telegramshop_zijjn.Transactions.Buy.{Attempt, buy_item_transaction}
use telegramshop_zijjn.Transactions.Buy.Delivery.{
  DeliveryOutcome, buy_item_transaction-DeliveryOutcome,
}
use telegramshop_zijjn.Transactions.Stock.{consume, units, pick_value, least}
use telegramshop_zijjn.Transactions.Stock.Laws.{IsStock, consume-units, consume-IsStock}
use telegramshop_zijjn.Transactions.Fulfil.{fulfil, Claim, Delivery, rows_for, claim_rows, by_id}
use telegramshop_zijjn.Transactions.Fulfil.Laws.{fulfil-length}
use telegramshop_zijjn.Transactions.Buy.Success.{buy_item_transaction-succeeds}
use telegramshop_zijjn.Transactions.Solvency.{
  IsSolvent, buy_item_transaction-IsSolvent, checkout_cart_transaction-IsSolvent,
  admin_balance_change-IsSolvent,
}
use telegramshop_zijjn.Models.Permission.{is_subset, granted, mask_and, and_digits}
use telegramshop_zijjn.Models.Permission.Bits.{Within, is_subset-Within, granted-Within}
use telegramshop_zijjn.Roles.{
  create_role, update_role, delete_role, drop_role, has_role_id, has_role, is_built_in,
  get_roles_with_max_perms,
}
use telegramshop_zijjn.Roles.Deletion.{DeleteOutcome, delete_role-DeleteOutcome}
use telegramshop_zijjn.Roles.Names.{
  IsRoleTable, create_role-IsRoleTable, update_role-IsRoleTable, get_roles_with_max_perms-Within,
}
use telegramshop_zijjn.Transactions.Payment.{
  Setting, Request, process_payment_with_referral, referral_amount,
}
use telegramshop_zijjn.Transactions.Payment.Once.{credits, credits-le-one}
use telegramshop_zijjn.Transactions.Payment.Amounts.{
  PaymentOutcome, process_payment-PaymentOutcome, referral_amount_range,
}
use telegramshop_zijjn.Transactions.Adjust.{
  admin_balance_change, is_overdraft, redeem_balance_promo, finish, redeem_block,
}
use telegramshop_zijjn.Transactions.Adjust.Laws.{is_overdraft-nonneg}
use telegramshop_zijjn.Transactions.Adjust.Once.{redeem-once}
use telegramshop_zijjn.Transactions.Checkout.{Round, checkout_cart_transaction}
use telegramshop_zijjn.Transactions.Checkout.Outcomes.{
  CheckoutOutcome, checkout_cart_transaction-CheckoutOutcome,
}
use telegramshop_zijjn.Cart.{
  calm, lost, add_to_cart, set_cart_item_quantity, remove_from_cart, clear_cart,
}
use telegramshop_zijjn.Cart.Sequences.{CartCall, call_all, call_all-IsCartTable}
use telegramshop_zijjn.Cart.Limits.{
  IsCartTable, add_to_cart-IsCartTable, set_cart_item_quantity-IsCartTable, removal-IsCartTable,
}
use telegramshop_zijjn.RateLimit.{
  is_banned, check_global_limit, admit, Limit, RateLimitConfig, RateLimiter, clean_old_requests,
}
use telegramshop_zijjn.RateLimit.Windows.{run_requests, run_requests-bounded}
use telegramshop_zijjn.RateLimit.Middleware.{
  handle_event, limit_event, handle_event-refused, callback_query, banned,
}
use telegramshop_zijjn.Guards.{
  LoginRateLimiter, is_blocked, CircuitBreaker, is_open, record_failure, record_success,
}
use telegramshop_zijjn.Guards.Login.{record_all, record_all-blocks}
use telegramshop_zijjn.Guards.Breaker.{fail_all, fail_all-opens}
use telegramshop_zijjn.Broadcast.{Mailing, broadcast, delivered, forbidden}
use telegramshop_zijjn.Broadcast.Stats.{accounted, broadcast-accounted}
use telegramshop_zijjn.Paginator.{Query, LazyPaginator, cached, get_total_pages, get_page}
use telegramshop_zijjn.Paginator.Pages.{IsPaginator, get_page-IsPaginator}

abbrev ann : User
ann = record {
  telegram_id = 7;
  language = codes "vi";
  role_id = some 1;
  balance = pos 5000;
  referral_id = some 9;
  is_blocked = false;
}

abbrev pub key : Good
key = record {
  id = 3;
  name = codes "key";
  price = pos 1000;
  description = [];
  category_id = 1;
  sale_percent = some (pos 1000);
  sale_until = at (aware 100);
  delivery_template = none;
}

abbrev key_stock : ItemValue
key_stock = record {
  id = 11;
  item_id = 3;
  value = some (codes "K-1");
  is_infinity = false;
  quantity = 2;
  delivery_type = codes "text";
  file_path = none;
  file_name = none;
}

abbrev key_line : CartItem
key_line = record { id = 21; user_id = 7; item_id = 3; promo_code = none; quantity = 2 }

abbrev spring : PromoCode
spring = record {
  id = 31;
  code = codes "SPRING";
  discount_type = percent;
  discount_value = pos 1000;
  scope = global;
  max_uses = 5;
  current_uses = 0;
  expires_at = none;
  category_id = none;
  item_id = none;
  is_active = true;
}

abbrev gift : PromoCode
gift = record spring { id = 32; code = codes "GIFT"; discount_type = balance }

abbrev pub shop : Store
shop = record {
  users = ann ∷ [];
  roles = [];
  categories = [];
  goods = key ∷ [];
  item_values = key_stock ∷ [];
  bought_goods = [];
  operations = [];
  payments = [];
  referral_earnings = [];
  promo_codes = spring ∷ gift ∷ [];
  promo_code_usages = [];
  cart_items = key_line ∷ [];
  stock_subscriptions = [];
  audit_log = [];
  next_id = 100;
}

abbrev world : World
world = record { store = shop; tasks = [] }

-- The first attempt is aborted by the database after it has written all.
abbrev rounds : ℕ → Round
rounds zero = record { now = 50; unique_ids = λ i. i; fault = late (operational true) }
rounds (suc n) = record { now = 51; unique_ids = λ i. i + 5; fault = calm }

checkout_example :
    CheckoutOutcome 7
      (some (pos 1800))
      world
      (checkout_cart_transaction rounds 7 (some (pos 1800)) world)
checkout_example =
    checkout_cart_transaction-CheckoutOutcome rounds 7 (some (pos 1800)) world (omega arith, tt)

abbrev attempts : ℕ → Attempt
attempts zero = record { now = 50; unique_id = 1; fault = early (integrity true) }
attempts (suc n) = record { now = 51; unique_id = 2; fault = calm }

stock_example : IsStock shop.item_values
stock_example = (omega arith, tt, tt)

buy_example :
    DeliveryOutcome 7
      (codes "key")
      world
      (buy_item_transaction attempts 7 (codes "key") (some (codes "spring")) world)
buy_example =
    buy_item_transaction-DeliveryOutcome attempts 7 (codes "key") (some (codes "spring")) world
      stock_example

abbrev pub setting : Setting
setting = record { now = 60; currency = codes "VND"; fault = calm }

abbrev top_up : Request
top_up = record {
  user_id = 7;
  amount = pos 2000;
  provider = codes "payos";
  external_id = codes "77";
  referral_percent = pos 5;
}

once_example :
    credits (codes "payos") (codes "77") ((setting, top_up) ∷ (setting, top_up) ∷ []) world ≤ 1
once_example =
    credits-le-one (codes "payos") (codes "77") ((setting, top_up) ∷ (setting, top_up) ∷ []) world

payment_example :
    PaymentOutcome setting top_up world (process_payment_with_referral setting top_up world)
payment_example = process_payment-PaymentOutcome setting top_up world

redeem_example :
    is_success
      (redeem_balance_promo 70 calm
        (codes "gift")
        7
        (redeem_balance_promo 60 calm (codes "gift") 7 world).1).0
    ≢ true
unfolding redeem_balance_promo finish session redeem_block promo_rule_error row_error find_promo
    upper
redeem_example = redeem-once 60 70 calm calm (codes "gift") 7 world refl

split_example :
    (sum_ℤ (split_amount (pos 1000) 3) ≡ pos 1000)
    × (length (split_amount (pos 1000) 3) ≡ 3)
    × NearlyEqual (divmod (pos 1000) 3).0 (split_amount (pos 1000) 3)
split_example = split_amount_lem (pos 1000) 3 (omega arith)

cart_table : IsCartTable shop.cart_items
cart_table = record {
  limits = ((omega arith, omega arith), tt);
  lines = λ u. ground arith;
  single = λ u i. ground arith;
}

abbrev calls : List CartCall
calls =
    CartCall.add (lost []) calm 7 (codes "key") none 97
    ∷ CartCall.change 21 7 (negsuc 0)
    ∷ CartCall.remove 21 (some 7)
    ∷ []

cart_example : IsCartTable (call_all calls shop).cart_items
cart_example =
    call_all-IsCartTable calls shop
      (
        (
          omega arith,
          record { limits = tt; lines = λ u. omega arith; single = λ u i. omega arith },
          tt,
        ),
        (tt, (tt, tt)),
      )
      cart_table

promo_rules_example :
    promo_rule_error shop 50 (some spring) 7 (some key) false ≡ none ↔ Usable shop 50 spring 7 key
promo_rules_example = promo_rule_error-Usable shop 50 spring 7 key (refl, refl)

discount_example : InRange (pos 3000) (apply_promo_discount (pos 1000) fixed (pos 5000) 3)
discount_example = apply_promo_discount_range 1000 fixed (pos 5000) 3

price_example : InRange (pos 1000) (effective_price key 50).final
price_example = effective_price_range key 50 (omega arith)

referral_example : InRange (pos 2000) (referral_amount (pos 5) (pos 2000))
referral_example = referral_amount_range (pos 5) 2000

abbrev two_a_minute : Limit
two_a_minute = record { requests = 2; window = 60 }

window_example :
    length (clean_old_requests 60 70 (run_requests two_a_minute (10 ∷ 20 ∷ 30 ∷ []) [] []).1) ≤ 2
window_example =
    run_requests-bounded two_a_minute (10 ∷ 20 ∷ 30 ∷ []) 70
      (omega arith, (omega arith, (omega arith, tt)))
      (omega arith, (omega arith, (omega arith, (omega arith, tt))))

abbrev strict : RateLimitConfig
strict = record {
  global_limit = record { requests = 0; window = 60 };
  action_limits = λ _. none;
  ban_duration = 300;
}

abbrev fresh : RateLimiter
fresh = record { user_requests = λ _. []; user_actions = λ _ _. []; banned_users = λ _. none }

refused_example :
    (handle_event strict true 200 7
      (callback_query (codes "shop"))
      (handle_event strict false 10 7 (callback_query (codes "shop")) fresh).1).0
    ≡ banned
unfolding handle_event limit_event is_banned check_global_limit admit
refused_example =
    handle_event-refused strict false true 10 200 7 (callback_query (codes "shop"))
      (callback_query (codes "shop")) fresh refl (omega arith)

units_example : units 3 (consume key_stock shop.item_values) + 1 ≡ units 3 shop.item_values
units_example = consume-units 3 key_stock shop.item_values stock_example (inl refl) refl refl

abbrev delivered_key : Delivery
delivered_key = record {
  value = codes "K-1";
  delivery_type = codes "text";
  file_path = none;
  file_name = none;
}

abbrev claim_two : Claim
claim_two = record {
  remaining = 0;
  deliveries = delivered_key ∷ delivered_key ∷ [];
  values_to_delete = key_stock ∷ [];
  item_values = shop.item_values;
}

fulfil_example : length claim_two.deliveries ≡ 2
unfolding fulfil rows_for claim_rows by_id
fulfil_example = fulfil-length 3 2 shop.item_values {c = claim_two} refl

abbrev mailing : Mailing
mailing = record {
  batch_size = 2;
  retry_count = 3;
  answers = λ u attempt. if u == 8 then forbidden else delivered;
  is_cancelled = λ _. false;
}

mailing_example : accounted (broadcast mailing (7 ∷ 8 ∷ 9 ∷ [])) ≡ 3
mailing_example = broadcast-accounted mailing (7 ∷ 8 ∷ 9 ∷ []) (omega arith) (λ k. refl)

abbrev numbers : Query ℕ
numbers = record { rows = λ offset limit. offset ∷ (offset + 1) ∷ []; total = 100 }

abbrev pager : LazyPaginator ℕ
pager = record {
  per_page = 2;
  cache_pages = 3;
  cache = (1, 2 ∷ 3 ∷ []) ∷ [];
  total_count = none;
  current_page = 1;
}

page_example :
    ((get_page numbers 4 pager).0 ≡ numbers.rows 8 2)
    × ((get_page numbers 4 pager).1.current_page ≡ 4)
    × IsPaginator numbers (get_page numbers 4 pager).1
    × ((cached 4 (get_page numbers 4 pager).1.cache ≡ some (numbers.rows 8 2))
        ⊎ ((get_total_pages numbers pager).0 ≤ 4))
page_example = get_page-IsPaginator numbers 4 pager (refl, tt)

pub shop_funds : IsSolvent shop.users
shop_funds i u h = ground arith

buy_funds_example :
    IsSolvent (buy_item_transaction attempts 7 (codes "key") none world).1.store.users
buy_funds_example = buy_item_transaction-IsSolvent attempts 7 (codes "key") none world shop_funds

checkout_funds_example : IsSolvent (checkout_cart_transaction rounds 7 none world).1.store.users
checkout_funds_example =
    checkout_cart_transaction-IsSolvent rounds 7 none world (omega arith, tt) shop_funds

admin_funds_example : IsSolvent (admin_balance_change 50 calm 7 (negsuc 999) world).1.store.users
admin_funds_example = admin_balance_change-IsSolvent 50 calm 7 (negsuc 999) world shop_funds

abbrev quiet : ℕ → Attempt
quiet n = record { now = 50; unique_id = n; fault = calm }

succeeds_example : is_success (buy_item_transaction quiet 7 (codes "key") none world).0 ≡ true
unfolding pick_value least
succeeds_example =
    buy_item_transaction-succeeds quiet 7 (codes "key") world ann key key_stock refl refl refl refl
      (omega (arith, (effective_price_range key 50 (omega arith)).1)) refl

subset_example : is_subset 3 7 ≡ true ↔ Within 3 7
subset_example = is_subset-Within 3 7

granted_example : Within 16 31
unfolding granted mask_and and_digits
granted_example = granted-Within 31 16 refl

abbrev pub user_role : Role
user_role = record { id = 1; name = codes "USER"; default = true; permissions = 1 }

abbrev pub helper_role : Role
helper_role = record { id = 2; name = codes "HELPER"; default = false; permissions = 9 }

abbrev pub staffed : Store
staffed = record shop { roles = user_role ∷ helper_role ∷ [] }

pub staffed_table : IsRoleTable staffed
staffed_table = record { names = λ m. ground (arith, apart m); ids = λ i. ground arith }
  where
    apart : (m : Text) → text_eq (codes "USER") m ≡ true → text_eq (codes "HELPER") m ≡ false
    apart m h = ground (arith, text_eq→eq (codes "USER") m h)

delete_example : DeleteOutcome 2 staffed (delete_role 2 staffed)
delete_example = delete_role-DeleteOutcome 2 staffed

offered_example : All (λ r. Within r.permissions 9) (get_roles_with_max_perms 9 staffed)
offered_example = get_roles_with_max_perms-Within 9 staffed

abbrev limiter : LoginRateLimiter
limiter = record { max_attempts = 2; lockout_seconds = 900; attempts = λ _. []; last_cleanup = 0 }

blocked_example :
    (is_blocked 1000
      (codes "a")
      (record_all ((codes "a", 300) ∷ (codes "b", 950) ∷ (codes "a", 990) ∷ []) limiter)).0
    ≡ true
blocked_example =
    record_all-blocks ((codes "a", 300) ∷ (codes "b", 950) ∷ (codes "a", 990) ∷ []) 1000 (codes "a")
      limiter (omega arith, (omega arith, (omega arith, tt))) (omega arith)

abbrev breaker : CircuitBreaker
breaker = record {
  failure_threshold = 3;
  recovery_timeout = 60;
  failure_count = 2;
  last_failure_time = 5;
  state_open = false;
}

breaker_example :
    (is_open 80 (record_failure 30 (fail_all (10 ∷ 20 ∷ []) (record_success breaker)))).0 ≡ true
breaker_example = fail_all-opens breaker (10 ∷ 20 ∷ []) 30 80 (omega arith) (omega arith)
