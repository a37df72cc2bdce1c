-- ===== src/Guards/Breaker.antt =====
-- The breaker opens after enough failures in a row, and stays open for its timeout.
use telegramshop_zijjn.Prelude.{ℕ, ◌+◌, ◌≤◌, ◌≡◌, refl, arith, true, List, [], ◌∷◌, length}
use telegramshop_zijjn.Guards.{CircuitBreaker, is_open, record_success, record_failure}

-- Failures at the times of a list, one after another.
pub fail_all : List ℕ → CircuitBreaker → CircuitBreaker
fail_all [] b = b
fail_all (t ∷ ts) b = fail_all ts (record_failure t b)

fail_all-keeps :
    (ts : List ℕ) (b : CircuitBreaker)
    → ((fail_all ts b).failure_count ≡ b.failure_count + length ts)
      × ((fail_all ts b).failure_threshold ≡ b.failure_threshold)
      × ((fail_all ts b).recovery_timeout ≡ b.recovery_timeout)
unfolding fail_all record_failure
fail_all-keeps [] b = (omega arith, refl, refl)
fail_all-keeps (t ∷ ts) b =
    let (c, d, e) = fail_all-keeps ts (record_failure t b) in (omega (arith, c), d, e)

-- After a success, as many failures as the threshold open the breaker: no call passes until the
-- timeout after the last of them.
pub fail_all-opens :
    (b : CircuitBreaker) (ts : List ℕ) (last now : ℕ)
    → b.failure_threshold ≤ length ts + 1
    → now ≤ last + b.recovery_timeout
    → (is_open now (record_failure last (fail_all ts (record_success b)))).0 ≡ true
unfolding is_open record_failure record_success
fail_all-opens b ts last now h k =
    let (c, d, e) = fail_all-keeps ts (record_success b) in ground (arith, c, d, e)
