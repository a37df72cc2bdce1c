-- ===== src/RateLimit.antt =====
-- `RateLimiter` of bot/middleware/rate_limit.py: sliding windows of request times in memory. One
-- reading of the clock stands for the readings that one call makes. A key that a dict misses stands
-- as the empty list, which is what its `get` and its default give.
pub mod Windows
pub mod Middleware
use telegramshop_zijjn.Prelude.{
  ℕ, ◌+◌, ◌-◌, ◌==◌, ltb, leb, min, if◌then◌else◌, Bool, true, false, Option, none, some, List, [],
  ◌∷◌, ◌++◌, Text, text_eq, select_where, length, option_map, or_else,
}

-- A limit of requests in a window of seconds.
pub record Limit : Type 0 where
  pub requests : ℕ
  pub window : ℕ

pub record RateLimitConfig : Type 0 where
  pub global_limit : Limit
  pub action_limits : Text → Option Limit
  pub ban_duration : ℕ

pub record RateLimiter : Type 0 where
  pub user_requests : ℕ → List ℕ
  pub user_actions : Text → ℕ → List ℕ
  pub banned_users : ℕ → Option ℕ

abbrev pub set_at {ℓ} : {A : Type ℓ} → ℕ → A → (ℕ → A) → ℕ → A
set_at i a f j = if i == j then a else f j

-- `current_time - req_time < window`
abbrev pub is_recent : ℕ → ℕ → ℕ → Bool
is_recent window now t = ltb now (t + window)

abbrev pub clean_old_requests : ℕ → ℕ → List ℕ → List ℕ
clean_old_requests window now requests = select_where (is_recent window now) requests

-- Whether a request passes, and the times that are kept.
unfoldable pub admit : Limit → ℕ → List ℕ → Bool × List ℕ
admit l now requests =
    let kept = clean_old_requests l.window now requests in
    if leb l.requests (length kept) then (false, kept) else (true, kept ++ now ∷ [])

unfoldable pub check_global_limit : RateLimitConfig → ℕ → ℕ → RateLimiter → Bool × RateLimiter
check_global_limit config now user_id r =
    let (passed, kept) = admit config.global_limit now (r.user_requests user_id) in
    (passed, record r { user_requests = set_at user_id kept r.user_requests })

abbrev pub set_action : Text → (ℕ → List ℕ) → (Text → ℕ → List ℕ) → Text → ℕ → List ℕ
set_action a f g b = if text_eq a b then f else g b

-- An action without a limit passes, and is not recorded.
unfoldable pub check_action_limit :
    RateLimitConfig → ℕ → ℕ → Text → RateLimiter → Bool × RateLimiter
check_action_limit config now user_id action r = elim (config.action_limits action) [
  | none ↦ (true, r)
  | some l ↦
      let (passed, kept) = admit l now (r.user_actions action user_id) in
      (
        passed,
        record r {
          user_actions =
              set_action action (set_at user_id kept (r.user_actions action)) r.user_actions;
        },
      )
]

-- `time.time() - ban_time > ban_duration` lifts the ban.
unfoldable pub is_banned : RateLimitConfig → ℕ → ℕ → RateLimiter → Bool × RateLimiter
is_banned config now user_id r = elim (r.banned_users user_id) [
  | none ↦ (false, r)
  | some ban_time ↦
      if ltb (ban_time + config.ban_duration) now
      then (false, record r { banned_users = set_at user_id none r.banned_users })
      else (true, r)
]

unfoldable pub ban_user : ℕ → ℕ → RateLimiter → RateLimiter
ban_user now user_id r = record r { banned_users = set_at user_id (some now) r.banned_users }

-- `min` of a list that is not empty.
abbrev pub oldest : ℕ → List ℕ → ℕ
oldest t [] = t
oldest t (u ∷ us) = oldest (min t u) us

-- `int(window - (now - oldest))`, by whole seconds; a clock that ran back adds to the wait.
abbrev pub until_free : ℕ → ℕ → ℕ → ℕ
until_free window now t = (t + window) - now

abbrev pub wait_of : Limit → ℕ → List ℕ → Option ℕ
wait_of l now [] = none
wait_of l now (t ∷ ts) =
    if leb l.requests (length (t ∷ ts)) then some (until_free l.window now (oldest t ts)) else none

abbrev pub action_wait : RateLimitConfig → ℕ → ℕ → Option Text → RateLimiter → Option ℕ
action_wait config now user_id none r = none
action_wait config now user_id (some action) r = elim (config.action_limits action) [
  | none ↦ none
  | some l ↦ wait_of l now (r.user_actions action user_id)
]

abbrev or_zero : Option ℕ → ℕ
or_zero none = 0
or_zero (some n) = n

-- The wait of a user whose ban was not lifted by `is_banned`.
pub get_wait_time : RateLimitConfig → ℕ → ℕ → Option Text → RateLimiter → ℕ × RateLimiter
get_wait_time config now user_id action r =
    let (banned, r2) = is_banned config now user_id r in
    (
      if banned
          then or_zero (option_map (until_free config.ban_duration now) (r.banned_users user_id))
          else or_zero (
              or_else (action_wait config now user_id action r)
                (wait_of config.global_limit now (r.user_requests user_id))),
      r2,
    )
