-- ===== src/Security/Freshness.antt =====
-- How old a role in the memory cache can be.
use telegramshop_zijjn.Prelude.{ℕ, ◌+◌, ◌≤◌, ◌<◌, ◌≡◌, Bool, true, false, List, [], ◌∷◌}
use telegramshop_zijjn.Security.{
  CachedRole, Authentication, cache_ttl, SharedRole, unavailable, missing, get_user_role_cached,
  invalidate_auth_caches, clear_role_auth_caches,
}

-- What happens to the cache: a look at the role of a user at a time, with what Redis has, and the two
-- invalidations.
pub data CacheUse : Type 0 where
  look : ℕ → Bool → ℕ → CacheUse
  invalidate : ℕ → CacheUse
  clear : CacheUse

-- `role_at now user` is the answer of `check_role` at that time. Redis is down or has no entry.
module _ (role_at : ℕ → ℕ → ℕ) where
  abbrev pub shared_at : Bool → SharedRole
  shared_at true = missing
  shared_at false = unavailable

  pub use_cache : CacheUse → Authentication → Authentication
  use_cache (look now has_redis user_id) m =
      (get_user_role_cached now (shared_at has_redis) (role_at now user_id) user_id m).1
  use_cache (invalidate user_id) m = invalidate_auth_caches user_id m
  use_cache clear m = clear_role_auth_caches m

  pub use_all : List CacheUse → Authentication → Authentication
  use_all [] m = m
  use_all (u ∷ us) m = use_all us (use_cache u m)

  -- Each entry was the user's role when it was read, and none was read later than a time.
  abbrev pub IsRead : ℕ → CachedRole → Type 0
  IsRead latest e = (e.role ≡ role_at e.timestamp e.user_id) × (e.timestamp ≤ latest)

  -- The clock does not step back between the looks, from a start to an end.
  abbrev pub IsForward : ℕ → List CacheUse → ℕ → Type 0
  IsForward start [] end = start ≤ end
  IsForward start (look now has_redis user_id ∷ us) end = (start ≤ now) × IsForward now us end
  IsForward start (invalidate user_id ∷ us) end = IsForward start us end
  IsForward start (clear ∷ us) end = IsForward start us end

  -- The role that is answered was the user's role at a time that is past, less than `cache_ttl` ago.
  abbrev pub IsFresh : ℕ → ℕ → ℕ → Type 0
  IsFresh now user_id role =
      (t : ℕ) × (t ≤ now) × (now < t + cache_ttl) × (role ≡ role_at t user_id)
