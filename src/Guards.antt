-- ===== src/Guards.antt =====
-- Two guards that count failures: `LoginRateLimiter` of bot/web/admin.py and `CircuitBreaker` of
-- bot/misc/services/payment.py. The clock is an argument, one reading for each call.
pub mod Login
pub mod Breaker
use telegramshop_zijjn.Prelude.{
  ℕ, ◌+◌, ltb, leb, if◌then◌else◌, Bool, true, false, List, [], ◌∷◌, ◌++◌, Text, text_eq, length,
}
use telegramshop_zijjn.RateLimit.{clean_old_requests}

-- An address that the dict misses stands as the empty list.
pub record LoginRateLimiter : Type 0 where
  pub max_attempts : ℕ
  pub lockout_seconds : ℕ
  pub attempts : Text → List ℕ
  pub last_cleanup : ℕ

abbrev pub set_attempts : Text → List ℕ → (Text → List ℕ) → Text → List ℕ
set_attempts ip ts f k = if text_eq ip k then ts else f k

unfoldable pub is_blocked : ℕ → Text → LoginRateLimiter → Bool × LoginRateLimiter
is_blocked now ip l =
    let kept = clean_old_requests l.lockout_seconds now (l.attempts ip) in
    (leb l.max_attempts (length kept), record l { attempts = set_attempts ip kept l.attempts })

-- `now - self._last_cleanup > 600`
pub cleanup : ℕ → LoginRateLimiter → LoginRateLimiter
cleanup now l =
    if ltb (l.last_cleanup + 600) now
    then record l {
      attempts = λ k. clean_old_requests l.lockout_seconds now (l.attempts k);
      last_cleanup = now;
    }
    else l

pub record_attempt : ℕ → Text → LoginRateLimiter → LoginRateLimiter
record_attempt now ip l = record l {
  attempts = set_attempts ip (l.attempts ip ++ now ∷ []) l.attempts;
}

unfoldable pub record_login_failure : ℕ → Text → LoginRateLimiter → LoginRateLimiter
record_login_failure now ip l = record_attempt now ip (cleanup now l)

unfoldable pub reset : Text → LoginRateLimiter → LoginRateLimiter
reset ip l = record l { attempts = set_attempts ip [] l.attempts }

-- `_state` is "open" or "closed".
pub record CircuitBreaker : Type 0 where
  pub failure_threshold : ℕ
  pub recovery_timeout : ℕ
  pub failure_count : ℕ
  pub last_failure_time : ℕ
  pub state_open : Bool

-- The property closes the breaker when its timeout has passed.
unfoldable pub is_open : ℕ → CircuitBreaker → Bool × CircuitBreaker
is_open now b =
    if b.state_open
    then (if ltb (b.last_failure_time + b.recovery_timeout) now
        then (false, record b { state_open = false; failure_count = 0 })
        else (true, b))
    else (false, b)

unfoldable pub record_success : CircuitBreaker → CircuitBreaker
record_success b = record b { failure_count = 0; state_open = false }

unfoldable pub record_failure : ℕ → CircuitBreaker → CircuitBreaker
record_failure now b = record b {
  failure_count = b.failure_count + 1;
  last_failure_time = now;
  state_open = if leb b.failure_threshold (b.failure_count + 1) then true else b.state_open;
}
