-- ===== src/Cache/History.antt =====
-- When an invalidation is not lost until the next full replay, and when it is.
use telegramshop_zijjn.Prelude.{
  ℕ, suc, length, ◌≡◌, refl, ap, arith, if◌then◌else◌, Bool, true, false, not, ◌&&◌, ◌||◌, List, [],
  ◌∷◌, Text, text_eq, exists,
}
use telegramshop_zijjn.Cache.Server.{Redis}
use telegramshop_zijjn.Cache.{
  Link, up, down, raised, is_caught, CacheManager, known_prefixes, sick, defer_delete,
  defer_pattern, delete, invalidate_pattern, delete_all, invalidate_all, star, is_nil, no_pending,
  replay_pending, has_pending, check_health, health_monitor, CacheOp, run_op, run_ops, set_key,
}
use telegramshop_zijjn.Cache.Owed.{
  is_known, IsSettled, delete-IsSettled, invalidate_pattern-IsSettled, delete-settles,
  check_health-IsSettled,
}

-- No value is stored under the key.
unfoldable pub spares : Text → List CacheOp → Bool
spares key [] = true
spares key (CacheOp.storing link j ∷ os) = not (text_eq key j) && spares key os
spares key (CacheOp.invalidating link j ∷ os) = spares key os
spares key (CacheOp.invalidating_pattern link p ∷ os) = spares key os
spares key (CacheOp.checking link links ∷ os) = spares key os
spares key (CacheOp.monitoring link ∷ os) = spares key os

-- No call of a replay raises an exception that is only logged.
abbrev pub IsHeard : List CacheOp → Type 0
IsHeard [] = Unit
IsHeard (CacheOp.checking link links ∷ os) = ((n : ℕ) → is_caught (links n) ≡ true) × IsHeard os
IsHeard (CacheOp.storing link j ∷ os) = IsHeard os
IsHeard (CacheOp.invalidating link j ∷ os) = IsHeard os
IsHeard (CacheOp.invalidating_pattern link p ∷ os) = IsHeard os
IsHeard (CacheOp.monitoring link ∷ os) = IsHeard os

module _ {R : Redis} where
  set_key-IsSettled :
      (link : Link) (key j : Text) (m : CacheManager R)
      → text_eq key j ≡ false
      → IsSettled key m
      → IsSettled key (set_key link j m)
  unfolding set_key
  set_key-IsSettled up key j m n s = go m.healthy
    where
      go :
          (b : Bool) → IsSettled key (if b then record m { redis = Redis.store R j m.redis } else m)
      go true = ground (arith, Redis.holds-store R key j m.redis)
      go false = s
  set_key-IsSettled down key j m n s = go m.healthy
    where
      go : (b : Bool) → IsSettled key (if b then sick m else m)
      go true = s
      go false = s
  set_key-IsSettled raised key j m n s = s

  run_ops-IsSettled :
      (key : Text) (os : List CacheOp) (m : CacheManager R)
      → is_known key ≡ true
      → spares key os ≡ true
      → IsHeard os
      → IsSettled key m
      → IsSettled key (run_ops os m)
  unfolding run_ops run_op spares health_monitor
  run_ops-IsSettled key [] m k a c s = s
  run_ops-IsSettled key (CacheOp.storing link j ∷ os) m k a c s =
      run_ops-IsSettled key os (set_key link j m) k (ground arith) c
        (set_key-IsSettled link key j m (ground arith) s)
  run_ops-IsSettled key (CacheOp.invalidating link j ∷ os) m k a c s =
      run_ops-IsSettled key os (delete link j m) k a c (delete-IsSettled link key j m s)
  run_ops-IsSettled key (CacheOp.invalidating_pattern link p ∷ os) m k a c s =
      run_ops-IsSettled key os (invalidate_pattern link p m) k a c
        (invalidate_pattern-IsSettled link key p m s)
  run_ops-IsSettled key (CacheOp.checking link links ∷ os) m k a c s =
      run_ops-IsSettled key os (check_health link links m).1 k a c.1
        (check_health-IsSettled link links key m c.0 k s)
  run_ops-IsSettled key (CacheOp.monitoring up ∷ os) m k a c s =
      run_ops-IsSettled key os (health_monitor up m) k a c s
  run_ops-IsSettled key (CacheOp.monitoring down ∷ os) m k a c s =
      run_ops-IsSettled key os (health_monitor down m) k a c s
  run_ops-IsSettled key (CacheOp.monitoring raised ∷ os) m k a c s =
      run_ops-IsSettled key os (health_monitor raised m) k a c s

  -- The server is reached, and nothing is owed.
  record IsQuiet (m : CacheManager R) : Type 0 where
    healthy : m.healthy ≡ true
    deletes : m.pending_deletes ≡ []
    patterns : m.pending_patterns ≡ []
    overflow : m.pending_overflow ≡ false

  delete-IsQuiet : (key : Text) (m : CacheManager R) → IsQuiet m → IsQuiet (delete up key m)
  unfolding delete
  delete-IsQuiet key m q = go m.healthy q.healthy
    where
      go :
          (b : Bool)
          → b ≡ true
          → IsQuiet
              (if b then record m { redis = Redis.remove R key m.redis } else defer_delete key m)
      go true e = record {
        healthy = q.healthy;
        deletes = q.deletes;
        patterns = q.patterns;
        overflow = q.overflow;
      }
      go false e = absurd (cc)

  invalidate_pattern-IsQuiet :
      (p : Text) (m : CacheManager R) → IsQuiet m → IsQuiet (invalidate_pattern up p m)
  unfolding invalidate_pattern
  invalidate_pattern-IsQuiet p m q = go m.healthy q.healthy
    where
      go :
          (b : Bool)
          → b ≡ true
          → IsQuiet (
              if b
              then record m { redis = Redis.remove_matching R p m.redis }
              else defer_pattern p m)
      go true e = record {
        healthy = q.healthy;
        deletes = q.deletes;
        patterns = q.patterns;
        overflow = q.overflow;
      }
      go false e = absurd (cc)

  delete_all-IsQuiet :
      (n : ℕ) (keys : List Text) (m : CacheManager R)
      → IsQuiet m
      → IsQuiet (delete_all (λ _. up) n keys m)
  unfolding delete_all
  delete_all-IsQuiet n [] m q = q
  delete_all-IsQuiet n (key ∷ keys) m q =
      delete_all-IsQuiet (suc n) keys (delete up key m) (delete-IsQuiet key m q)

  invalidate_all-IsQuiet :
      (n : ℕ) (ps : List Text) (m : CacheManager R)
      → IsQuiet m
      → IsQuiet (invalidate_all (λ _. up) n ps m)
  unfolding invalidate_all
  invalidate_all-IsQuiet n [] m q = q
  invalidate_all-IsQuiet n (p ∷ ps) m q =
      invalidate_all-IsQuiet (suc n) ps (invalidate_pattern up p m)
        (invalidate_pattern-IsQuiet p m q)

  replay_pending-IsQuiet :
      (m : CacheManager R) → m.healthy ≡ true → IsQuiet (replay_pending (λ _. up) m)
  unfolding replay_pending
  replay_pending-IsQuiet m h = go m.pending_overflow
    where
      cleared : IsQuiet (no_pending m)
      cleared = record { healthy = h; deletes = refl; patterns = refl; overflow = refl }

      go :
          (b : Bool)
          → IsQuiet (
              if b
              then invalidate_all (λ _. up) 0 (star known_prefixes) (no_pending m)
              else invalidate_all
                  (λ _. up)
                  (length m.pending_deletes)
                  m.pending_patterns
                  (delete_all (λ _. up) 0 m.pending_deletes (no_pending m)))
      go true = invalidate_all-IsQuiet 0 (star known_prefixes) (no_pending m) cleared
      go false =
          invalidate_all-IsQuiet (length m.pending_deletes) m.pending_patterns _
            (delete_all-IsQuiet 0 m.pending_deletes (no_pending m) cleared)

  check_health-IsQuiet : (m : CacheManager R) → IsQuiet (check_health up (λ _. up) m).1
  unfolding check_health
  check_health-IsQuiet m = go (not m.healthy || has_pending m) refl
    where
      nil : (ts : List Text) → is_nil ts ≡ true → ts ≡ []
      nil [] e = refl
      nil (t ∷ ts) e = absurd (cc)

      go :
          (b : Bool)
          → (not m.healthy || has_pending m) ≡ b
          → IsQuiet (
              if b
              then replay_pending (λ _. up) (record m { healthy = true })
              else record m { healthy = true })
      go true e = replay_pending-IsQuiet (record m { healthy = true }) refl
      go false e = record {
        healthy = refl;
        deletes = nil m.pending_deletes (ground arith);
        patterns = nil m.pending_patterns (ground arith);
        overflow = ground arith;
      }

  quiet-clean :
      (key : Text) (m : CacheManager R)
      → IsQuiet m
      → IsSettled key m
      → Redis.holds R key m.redis ≡ false
  quiet-clean key m q s =
      clean _ _ _ _ s (ap (exists (text_eq key)) q.deletes)
        (ap (exists (λ p. Redis.matches R p key)) q.patterns) q.overflow
    where
      clean :
          (h o d p : Bool)
          → h && not (o || d || p) ≡ false
          → d ≡ false
          → p ≡ false
          → o ≡ false
          → h ≡ false
      clean h o d p s e f g = ground arith

  -- Once a key of a known namespace is invalidated, the server is rid of it after the next check of its
  -- health that goes through, whatever happened between the two: calls of any kind for other keys,
  -- failed ones included, health checks that failed midway and an overflow of what is pending. The
  -- invalidation and the calls of the replays end well or in a builtin ConnectionError, TimeoutError or
  -- OSError; an exception of another kind may end the invalidation itself only while the manager has
  -- Redis down, and all other calls at any time. No value is stored under the key again.
  pub invalidated-gone :
      (link : Link) (key : Text) (os : List CacheOp) (m : CacheManager R)
      → (is_caught link || not m.healthy) ≡ true
      → is_known key ≡ true
      → spares key os ≡ true
      → IsHeard os
      → Redis.holds R key (check_health up (λ _. up) (run_ops os (delete link key m))).1.redis
        ≡ false
  invalidated-gone link key os m c k a h =
      let after = run_ops os (delete link key m) in
      quiet-clean key (check_health up (λ _. up) after).1 (check_health-IsQuiet after) (
        check_health-IsSettled up (λ _. up) key after (λ _. refl) k
          (run_ops-IsSettled key os (delete link key m) k a h (delete-settles link key m c)))

  -- An exception that is only logged loses the invalidation of a manager that has Redis up.
  delete-raised : (key : Text) (m : CacheManager R) → m.healthy ≡ true → delete raised key m ≡ m
  unfolding delete
  delete-raised key m h = rw h refl
