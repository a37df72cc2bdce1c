-- ===== src/RateLimit/Middleware.antt =====
-- `RateLimitMiddleware` with the limiter in memory: which action an event is, and whether it reaches
-- its handler.
use telegramshop_zijjn.Prelude.{
  ℕ, ◌+◌, ◌≤◌, ◌≡◌, ◌≢◌, refl, arith, if◌then◌else◌, Bool, true, some, List, [], ◌∷◌, Text, codes,
  starts_with, Bool-cases, inl, inr, ==_refl,
}
use telegramshop_zijjn.RateLimit.{
  RateLimitConfig, RateLimiter, check_global_limit, check_action_limit, is_banned, ban_user,
}

-- The events that the middleware tells apart: a callback with its data, a message with its text and
-- whether the chat waits for a search query.
pub data Event : Type 0 where
  callback_query : Text → Event
  message : Bool → Text → Event

abbrev pub action_mapping : List (Text × Text)
action_mapping =
    (codes "replenish_balance", codes "top_up")
    ∷ (codes "pay_", codes "payment")
    ∷ (codes "cart_checkout_confirm", codes "buy_item")
    ∷ (codes "add_to_cart", codes "buy_item")
    ∷ (codes "buy_item", codes "buy_item")
    ∷ (codes "shop_search", codes "search")
    ∷ (codes "shop", codes "shop_view")
    ∷ (codes "cat:", codes "shop_view")
    ∷ (codes "itm:", codes "shop_view")
    ∷ (codes "sitm:", codes "shop_view")
    ∷ (codes "categories-page_", codes "shop_view")
    ∷ (codes "gp_", codes "shop_view")
    ∷ (codes "sp_", codes "shop_view")
    ∷ (codes "bought-item:", codes "shop_view")
    ∷ (codes "bought-goods-page_", codes "shop_view")
    ∷ (codes "earning_detail:", codes "shop_view")
    ∷ (codes "check", codes "shop_view")
    ∷ []

-- The first prefix decides.
abbrev pub action_of : List (Text × Text) → Text → Text
action_of [] data_text = codes "default"
action_of ((prefix, action) ∷ rest) data_text =
    if starts_with prefix data_text then action else action_of rest data_text

pub get_action_from_event : Event → Text
get_action_from_event (callback_query data_text) = action_of action_mapping data_text
get_action_from_event (message searching text) =
    if searching
    then codes "search"
    else if starts_with (codes "/start") text
    then codes "shop_view"
    else if starts_with (codes "/") text
    then codes "admin_action"
    else codes "default"

-- What the user is told, or that the handler runs.
pub data Decision : Type 0 where
  banned above_limits waiting handled : Decision

pub limit_action : RateLimitConfig → ℕ → ℕ → Event → RateLimiter → Decision × RateLimiter
limit_action config now user_id event r =
    let (passed, r2) = check_action_limit config now user_id (get_action_from_event event) r in
    (if passed then handled else waiting, r2)

unfoldable pub limit_event : RateLimitConfig → ℕ → ℕ → Event → RateLimiter → Decision × RateLimiter
limit_event config now user_id event r =
    let (passed, r2) = check_global_limit config now user_id r in
    if passed
    then limit_action config now user_id event r2
    else (above_limits, ban_user now user_id r2)

-- `__call__` for an event with a user; `bypass` is what `_check_admin_bypass` answers.
unfoldable pub handle_event :
    RateLimitConfig → Bool → ℕ → ℕ → Event → RateLimiter → Decision × RateLimiter
handle_event config bypass now user_id event r =
    let (is_out, r2) = is_banned config now user_id r in
    if is_out
    then (banned, r2)
    else if bypass
    then (handled, r2)
    else limit_event config now user_id event r2

limit_action-decision :
    (config : RateLimitConfig) (now u : ℕ) (event : Event) (r : RateLimiter)
    → (limit_action config now u event r).0 ≢ above_limits
unfolding limit_action
limit_action-decision config now u event r h =
    elim (Bool-cases (check_action_limit config now u (get_action_from_event event) r).0) [
      | inl e ↦ absurd (ground arith)
      | inr e ↦ absurd (ground arith)
    ]

limit_event-bans :
    (config : RateLimitConfig) (now u : ℕ) (event : Event) (r : RateLimiter)
    → (limit_event config now u event r).0 ≡ above_limits
    → (limit_event config now u event r).1.banned_users u ≡ some now
unfolding limit_event ban_user
limit_event-bans config now u event r h = elim (Bool-cases (check_global_limit config now u r).0) [
  | inl e ↦ absurd (
      limit_action-decision config now u event (check_global_limit config now u r).1 (ground arith))
  | inr e ↦ rw (e, ==_refl u) refl
]

handle_event-bans :
    (config : RateLimitConfig) (bypass : Bool) (now u : ℕ) (event : Event) (r : RateLimiter)
    → (handle_event config bypass now u event r).0 ≡ above_limits
    → (handle_event config bypass now u event r).1.banned_users u ≡ some now
unfolding handle_event
handle_event-bans config bypass now u event r h = elim (Bool-cases (is_banned config now u r).0) [
  | inl e ↦ absurd (ground arith)
  | inr e ↦ elim (Bool-cases bypass) [
    | inl b ↦ absurd (ground arith)
    | inr b ↦
        rw (e, b, handle_event)
          (limit_event-bans config now u event (is_banned config now u r).1 (ground arith))
  ]
]

is_banned-within :
    (config : RateLimitConfig) (now later u : ℕ) (s : RateLimiter)
    → s.banned_users u ≡ some now
    → later ≤ now + config.ban_duration
    → (is_banned config later u s).0 ≡ true
unfolding is_banned
is_banned-within config now later u s h k = ground arith

handle_event-banned :
    (config : RateLimitConfig) (bypass : Bool) (now u : ℕ) (event : Event) (s : RateLimiter)
    → (is_banned config now u s).0 ≡ true
    → (handle_event config bypass now u event s).0 ≡ banned
unfolding handle_event
handle_event-banned config bypass now u event s e = ground arith

-- A user who exceeds the global limit is refused for the whole duration of the ban: the next event at
-- any time up to its end is answered as banned, for an administrator too.
pub handle_event-refused :
    (config : RateLimitConfig) (bypass bypass' : Bool) (now later u : ℕ) (event event' : Event)
    (r : RateLimiter)
    → (handle_event config bypass now u event r).0 ≡ above_limits
    → later ≤ now + config.ban_duration
    → (handle_event config bypass' later u event' (handle_event config bypass now u event r).1).0
      ≡ banned
handle_event-refused config bypass bypass' now later u event event' r h k =
    handle_event-banned config bypass' later u event' _
      (is_banned-within config now later u _ (handle_event-bans config bypass now u event r h) k)
