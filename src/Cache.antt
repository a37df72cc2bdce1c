-- ===== src/Cache.antt =====
-- `CacheManager` of bot/misc/caching/cache.py: invalidations that outlive an outage of Redis.
pub mod Server
pub mod Owed
pub mod History
use telegramshop_zijjn.Prelude.{
  ℕ, suc, leb, if◌then◌else◌, Bool, true, false, not, ◌&&◌, ◌||◌, List, [], ◌∷◌, ◌++◌, Text,
  text_eq, codes, exists, length,
}
use telegramshop_zijjn.Cache.Server.{Redis}

-- `_PENDING_CAP`
abbrev pub pending_cap : ℕ
pending_cap = 5000

-- `_KNOWN_PREFIXES`
abbrev pub known_prefixes : List Text
known_prefixes =
    codes "user:"
    ∷ codes "role:"
    ∷ codes "auth:role:"
    ∷ codes "category:"
    ∷ codes "item_info:"
    ∷ codes "item_values:"
    ∷ codes "user_count:"
    ∷ codes "stats:"
    ∷ []

-- How a call of Redis ends: it is done; it raises a builtin ConnectionError, TimeoutError or OSError; or
-- it raises another exception, as the errors of redis-py are, which `except Exception` logs.
pub data Link : Type 0 where
  up down raised : Link

-- Not of the kind that `delete` and `invalidate_pattern` only log.
abbrev pub is_caught : Link → Bool
is_caught up = true
is_caught down = true
is_caught raised = false

-- The sets of the source as lists without repetition; `redis` is what the server holds.
pub record CacheManager (R : Redis) : Type 0 where
  pub redis : Redis.State R
  pub healthy : Bool
  pub pending_deletes : List Text
  pub pending_patterns : List Text
  pub pending_overflow : Bool

abbrev pub add : Text → List Text → List Text
add t ts = if exists (text_eq t) ts then ts else ts ++ t ∷ []

-- `f"{prefix}*"`
abbrev pub star : List Text → List Text
star [] = []
star (p ∷ ps) = (p ++ 42 ∷ []) ∷ star ps

abbrev pub is_nil : List Text → Bool
is_nil [] = true
is_nil (t ∷ ts) = false

module _ {R : Redis} where
  pub defer_delete : Text → CacheManager R → CacheManager R
  defer_delete key m =
      if leb pending_cap (length m.pending_deletes)
      then record m { pending_overflow = true }
      else record m { pending_deletes = add key m.pending_deletes }

  pub defer_pattern : Text → CacheManager R → CacheManager R
  defer_pattern pattern m =
      if leb pending_cap (length m.pending_patterns)
      then record m { pending_overflow = true }
      else record m { pending_patterns = add pattern m.pending_patterns }

  abbrev pub sick : CacheManager R → CacheManager R
  sick m = record m { healthy = false }

  -- `delete`: deferred while Redis is known to be down, and when it turns out to be. Another exception
  -- is logged, and nothing is deferred.
  pub delete : Link → Text → CacheManager R → CacheManager R
  delete up key m =
      if m.healthy then record m { redis = Redis.remove R key m.redis } else defer_delete key m
  delete down key m = if m.healthy then defer_delete key (sick m) else defer_delete key m
  delete raised key m = if m.healthy then m else defer_delete key m

  pub invalidate_pattern : Link → Text → CacheManager R → CacheManager R
  invalidate_pattern up pattern m =
      if m.healthy
      then record m { redis = Redis.remove_matching R pattern m.redis }
      else defer_pattern pattern m
  invalidate_pattern down pattern m =
      if m.healthy then defer_pattern pattern (sick m) else defer_pattern pattern m
  invalidate_pattern raised pattern m = if m.healthy then m else defer_pattern pattern m

  -- The loops of `_replay_pending`. Each call has its own link: `links n` is that of the n-th.
  pub delete_all : (ℕ → Link) → ℕ → List Text → CacheManager R → CacheManager R
  delete_all links n [] m = m
  delete_all links n (key ∷ keys) m = delete_all links (suc n) keys (delete (links n) key m)

  pub invalidate_all : (ℕ → Link) → ℕ → List Text → CacheManager R → CacheManager R
  invalidate_all links n [] m = m
  invalidate_all links n (p ∷ ps) m =
      invalidate_all links (suc n) ps (invalidate_pattern (links n) p m)

  abbrev pub no_pending : CacheManager R → CacheManager R
  no_pending m = record m { pending_deletes = []; pending_patterns = []; pending_overflow = false }

  pub replay_pending : (ℕ → Link) → CacheManager R → CacheManager R
  replay_pending links m =
      if m.pending_overflow
      then invalidate_all links 0 (star known_prefixes) (no_pending m)
      else invalidate_all links (length m.pending_deletes) m.pending_patterns
          (delete_all links 0 m.pending_deletes (no_pending m))

  abbrev pub has_pending : CacheManager R → Bool
  has_pending m =
      not (is_nil m.pending_deletes) || not (is_nil m.pending_patterns) || m.pending_overflow

  -- The ping, whose failure of any kind lowers the flag, then the replay after an outage or when something is pending.
  pub check_health : Link → (ℕ → Link) → CacheManager R → Bool × CacheManager R
  check_health down links m = (false, sick m)
  check_health raised links m = (false, sick m)
  check_health up links m =
      let m2 = record m { healthy = true } in
      (true, if not m.healthy || has_pending m then replay_pending links m2 else m2)

  -- `redis_health_monitor` of cache_scheduler.py: a ping that only restores the flag.
  pub health_monitor : Link → CacheManager R → CacheManager R
  health_monitor up m = record m { healthy = true }
  health_monitor down m = m
  health_monitor raised m = m

  -- `set`, as far as it decides which keys are held; the value and its lifetime are left out, since a
  -- key that expires is gone sooner.
  pub set_key : Link → Text → CacheManager R → CacheManager R
  set_key up key m = if m.healthy then record m { redis = Redis.store R key m.redis } else m
  set_key down key m = if m.healthy then sick m else m
  set_key raised key m = m

-- A call of the cache or a round of its monitor.
pub data CacheOp : Type 0 where
  invalidating invalidating_pattern storing : Link → Text → CacheOp
  checking : Link → (ℕ → Link) → CacheOp
  monitoring : Link → CacheOp

module _ {R : Redis} where
  pub run_op : CacheOp → CacheManager R → CacheManager R
  run_op (invalidating link key) m = delete link key m
  run_op (invalidating_pattern link p) m = invalidate_pattern link p m
  run_op (storing link key) m = set_key link key m
  run_op (checking link links) m = (check_health link links m).1
  run_op (monitoring link) m = health_monitor link m

  pub run_ops : List CacheOp → CacheManager R → CacheManager R
  run_ops [] m = m
  run_ops (o ∷ os) m = run_ops os (run_op o m)
