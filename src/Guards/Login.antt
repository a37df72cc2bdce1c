-- ===== src/Guards/Login.antt =====
-- Enough failures from one address block it.
use telegramshop_zijjn.Prelude.{
  ◌&&◌, ℕ, ◌+◌, ltb, ◌≤◌, ◌≡◌, refl, ◌∙◌, ap, arith, if◌then◌else◌, true, List, [], ◌∷◌, Text,
  text_eq, text_eq→eq, length, length-append, Bool-cases, inl, inr,
}
use telegramshop_zijjn.RateLimit.{clean_old_requests, is_recent}
use telegramshop_zijjn.RateLimit.Windows.{clean-clean, clean-append}
use telegramshop_zijjn.Guards.{
  LoginRateLimiter, is_blocked, cleanup, record_attempt, record_login_failure,
}

-- Failed logins of all addresses, the oldest first, at times up to `now`.
pub record_all : List (Text × ℕ) → LoginRateLimiter → LoginRateLimiter
record_all [] l = l
record_all ((ip, t) ∷ events) l = record_all events (record_login_failure t ip l)

abbrev pub UpTo : ℕ → List (Text × ℕ) → Type 0
UpTo now [] = Unit
UpTo now ((ip, t) ∷ events) = (t ≤ now) × UpTo now events

-- How many failures of the address lie in the lockout that ends now.
abbrev pub failures : ℕ → ℕ → Text → List (Text × ℕ) → ℕ
failures window now ip [] = 0
failures window now ip ((k, t) ∷ events) =
    (if text_eq k ip && is_recent window now t then 1 else 0) + failures window now ip events

recent : ℕ → Text → LoginRateLimiter → ℕ
recent now ip l = length (clean_old_requests l.lockout_seconds now (l.attempts ip))

cleanup-recent :
    (t now : ℕ) (ip : Text) (l : LoginRateLimiter)
    → t ≤ now
    → (recent now ip (cleanup t l) ≡ recent now ip l)
      × ((cleanup t l).lockout_seconds ≡ l.lockout_seconds)
      × ((cleanup t l).max_attempts ≡ l.max_attempts)
unfolding recent cleanup
cleanup-recent t now ip l h = elim (Bool-cases (ltb (l.last_cleanup + 600) t)) [
  | inl e ↦ rw e (ap length (clean-clean l.lockout_seconds t now (l.attempts ip) h), refl, refl)
  | inr e ↦ rw e (refl, refl, refl)
]

attempt-recent :
    (t now : ℕ) (k ip : Text) (l : LoginRateLimiter)
    → recent now ip (record_attempt t k l)
      ≡ recent now ip l + (if text_eq k ip && is_recent l.lockout_seconds now t then 1 else 0)
unfolding recent record_attempt
attempt-recent t now k ip l = elim (Bool-cases (text_eq k ip)) [
  | inl e ↦
      let q : k ≡ ip = text_eq→eq k ip e in
      rw (e, q, clean-append l.lockout_seconds now (l.attempts ip) (t ∷ []))
        (ground (
          arith,
          length-append (clean_old_requests l.lockout_seconds now (l.attempts ip)) (t ∷ []),
          length-append (clean_old_requests l.lockout_seconds now (l.attempts ip)) [],
        ))
  | inr e ↦ rw e (omega arith)
]

record-recent :
    (t now : ℕ) (k ip : Text) (l : LoginRateLimiter)
    → t ≤ now
    → (recent now ip (record_login_failure t k l)
        ≡ recent now ip l + (if text_eq k ip && is_recent l.lockout_seconds now t then 1 else 0))
      × ((record_login_failure t k l).lockout_seconds ≡ l.lockout_seconds)
      × ((record_login_failure t k l).max_attempts ≡ l.max_attempts)
unfolding record_login_failure record_attempt
record-recent t now k ip l h =
    let (r, w, m) = cleanup-recent t now ip l h in
    (attempt-recent t now k ip (cleanup t l) ∙ rw (r, w) refl, w, m)

record_all-recent :
    (events : List (Text × ℕ)) (now : ℕ) (ip : Text) (l : LoginRateLimiter)
    → UpTo now events
    → (recent now ip (record_all events l)
        ≡ recent now ip l + failures l.lockout_seconds now ip events)
      × ((record_all events l).max_attempts ≡ l.max_attempts)
unfolding record_all
record_all-recent [] now ip l h = (omega arith, refl)
record_all-recent ((k, t) ∷ events) now ip l h =
    let (r, w, m) = record-recent t now k ip l h.0 in
    let (s, n) = record_all-recent events now ip (record_login_failure t k l) h.1 in
    (s ∙ rw (r, w) (omega arith), n ∙ m)

-- An address with as many failures within the lockout as are allowed is blocked, whatever other
-- addresses do in between and however often old entries are cleaned up.
pub record_all-blocks :
    (events : List (Text × ℕ)) (now : ℕ) (ip : Text) (l : LoginRateLimiter)
    → UpTo now events
    → l.max_attempts ≤ failures l.lockout_seconds now ip events
    → (is_blocked now ip (record_all events l)).0 ≡ true
unfolding is_blocked recent
record_all-blocks events now ip l h k =
    let (s, n) = record_all-recent events now ip l h in ground (arith, s, n)
