-- ===== src/Cache/Owed.antt =====
-- An invalidation is done or owed.
use telegramshop_zijjn.Prelude.{
  subst, text_eq→eq, All, ℕ, suc, ◌≡◌, refl, arith, if◌then◌else◌, Bool, true, false, not, ◌&&◌,
  ◌||◌, List, [], ◌∷◌, Text, text_eq, text_eq_refl, exists, length, starts_with, Bool-cases, inl,
  inr, ◌⊎◌,
}
use telegramshop_zijjn.Prelude.Rows.{exists-append}
use telegramshop_zijjn.Cache.Server.{Redis, is_plain}
use telegramshop_zijjn.Cache.{
  Link, up, down, raised, is_caught, CacheManager, add, known_prefixes, defer_delete, defer_pattern,
  sick, delete, invalidate_pattern, delete_all, invalidate_all, star, no_pending, replay_pending,
  has_pending, check_health,
}

-- A key of one of the namespaces that an overflow clears.
abbrev pub is_known : Text → Bool
is_known key = exists (λ p. starts_with p key) known_prefixes

exists-add :
    (q : Text → Bool) (t : Text) (ts : List Text) → exists q ts ≡ true → exists q (add t ts) ≡ true
exists-add q t ts h = ground (arith, exists-append q ts (t ∷ []))

exists-member :
    (q : Text → Bool) (t : Text) (ts : List Text)
    → q t ≡ true
    → exists (text_eq t) ts ≡ true
    → exists q ts ≡ true
exists-member q t [] e h = cc
exists-member q t (x ∷ ts) e h = elim (Bool-cases (text_eq t x)) [
  | inl k ↦ let z = subst (λ y. q y ≡ true) (text_eq→eq t x k) e in ground arith
  | inr k ↦ ground (arith, exists-member q t ts)
]

exists-add_self :
    (q : Text → Bool) (t : Text) (ts : List Text) → q t ≡ true → exists q (add t ts) ≡ true
exists-add_self q t ts e = ground (arith, exists-append q ts (t ∷ []), exists-member q t ts)

-- A known key matches one of the patterns of an overflow.
star-matches :
    (R : Redis) (key : Text) (ps : List Text)
    → All (λ p. is_plain p ≡ true) ps
    → exists (λ p. starts_with p key) ps ≡ true
    → exists (λ p. Redis.matches R p key) (star ps) ≡ true
star-matches R key [] a h = absurd (cc)
star-matches R key (p ∷ ps) a h = elim (Bool-cases (starts_with p key)) [
  | inl e ↦ rw (Redis.matches_prefix R p key a.0 e) refl
  | inr e ↦ let z = star-matches R key ps a.1 (ground arith) in ground (arith, z)
]

known_prefixes-plain : All (λ p. is_plain p ≡ true) known_prefixes
known_prefixes-plain = (refl, (refl, (refl, (refl, (refl, (refl, (refl, (refl, tt))))))))

split :
    (h d p : Bool)
    → p ≡ false
    → h && not (false || d || p) ≡ false
    → (h && true ≡ false) ⊎ (d ≡ true)
split h true p e s = inr refl
split h false p e s = inl (ground arith)

module _ {R : Redis} where
  -- Something pending will remove the key.
  abbrev pub owed : Text → CacheManager R → Bool
  owed key m =
      m.pending_overflow
      || exists (text_eq key) m.pending_deletes
      || exists (λ p. Redis.matches R p key) m.pending_patterns

  -- The server does not hold the key, or its removal is owed.
  abbrev pub IsSettled : Text → CacheManager R → Type 0
  IsSettled key m = Redis.holds R key m.redis && not (owed key m) ≡ false

  defer_delete-IsSettled :
      (key j : Text) (m : CacheManager R) → IsSettled key m → IsSettled key (defer_delete j m)
  unfolding defer_delete
  defer_delete-IsSettled key j m s = ground (arith, exists-add (text_eq key) j m.pending_deletes)

  defer_pattern-IsSettled :
      (key p : Text) (m : CacheManager R) → IsSettled key m → IsSettled key (defer_pattern p m)
  unfolding defer_pattern
  defer_pattern-IsSettled key p m s =
      ground (arith, exists-add (λ q. Redis.matches R q key) p m.pending_patterns)

  pub delete-IsSettled :
      (link : Link) (key j : Text) (m : CacheManager R)
      → IsSettled key m
      → IsSettled key (delete link j m)
  unfolding delete
  delete-IsSettled up key j m s = go m.healthy
    where
      go :
          (b : Bool)
          → IsSettled key
              (if b then record m { redis = Redis.remove R j m.redis } else defer_delete j m)
      go true = ground (arith, Redis.holds-remove R key j m.redis)
      go false = defer_delete-IsSettled key j m s
  delete-IsSettled down key j m s = go m.healthy
    where
      go : (b : Bool) → IsSettled key (if b then defer_delete j (sick m) else defer_delete j m)
      go true = defer_delete-IsSettled key j (sick m) s
      go false = defer_delete-IsSettled key j m s
  delete-IsSettled raised key j m s = go m.healthy
    where
      go : (b : Bool) → IsSettled key (if b then m else defer_delete j m)
      go true = s
      go false = defer_delete-IsSettled key j m s

  pub invalidate_pattern-IsSettled :
      (link : Link) (key p : Text) (m : CacheManager R)
      → IsSettled key m
      → IsSettled key (invalidate_pattern link p m)
  unfolding invalidate_pattern
  invalidate_pattern-IsSettled up key p m s = go m.healthy
    where
      go :
          (b : Bool)
          → IsSettled key (
              if b
              then record m { redis = Redis.remove_matching R p m.redis }
              else defer_pattern p m)
      go true = ground (arith, Redis.holds-remove_matching R key p m.redis)
      go false = defer_pattern-IsSettled key p m s
  invalidate_pattern-IsSettled down key p m s = go m.healthy
    where
      go : (b : Bool) → IsSettled key (if b then defer_pattern p (sick m) else defer_pattern p m)
      go true = defer_pattern-IsSettled key p (sick m) s
      go false = defer_pattern-IsSettled key p m s
  invalidate_pattern-IsSettled raised key p m s = go m.healthy
    where
      go : (b : Bool) → IsSettled key (if b then m else defer_pattern p m)
      go true = s
      go false = defer_pattern-IsSettled key p m s

  -- An invalidation that is asked for is done or owed from then on.
  defer_delete-settles : (key : Text) (m : CacheManager R) → IsSettled key (defer_delete key m)
  unfolding defer_delete
  defer_delete-settles key m =
      ground (arith, exists-add_self (text_eq key) key m.pending_deletes (text_eq_refl key))

  defer_pattern-settles :
      (key p : Text) (m : CacheManager R)
      → Redis.matches R p key ≡ true
      → IsSettled key (defer_pattern p m)
  unfolding defer_pattern
  defer_pattern-settles key p m e =
      ground (arith, exists-add_self (λ q. Redis.matches R q key) p m.pending_patterns e)

  pub delete-settles :
      (link : Link) (key : Text) (m : CacheManager R)
      → (is_caught link || not m.healthy) ≡ true
      → IsSettled key (delete link key m)
  unfolding delete
  delete-settles up key m c = go m.healthy
    where
      go :
          (b : Bool)
          → IsSettled key
              (if b then record m { redis = Redis.remove R key m.redis } else defer_delete key m)
      go true = ground (arith, Redis.holds-remove R key key m.redis, text_eq_refl key)
      go false = defer_delete-settles key m
  delete-settles down key m c = go m.healthy
    where
      go : (b : Bool) → IsSettled key (if b then defer_delete key (sick m) else defer_delete key m)
      go true = defer_delete-settles key (sick m)
      go false = defer_delete-settles key m
  delete-settles raised key m c = go m.healthy c
    where
      go : (b : Bool) → not b ≡ true → IsSettled key (if b then m else defer_delete key m)
      go true e = absurd (cc)
      go false e = defer_delete-settles key m

  pub invalidate_pattern-settles :
      (link : Link) (key p : Text) (m : CacheManager R)
      → Redis.matches R p key ≡ true
      → is_caught link ≡ true
      → IsSettled key (invalidate_pattern link p m)
  unfolding invalidate_pattern
  invalidate_pattern-settles up key p m e c = go m.healthy
    where
      go :
          (b : Bool)
          → IsSettled key (
              if b
              then record m { redis = Redis.remove_matching R p m.redis }
              else defer_pattern p m)
      go true = ground (arith, Redis.holds-remove_matching R key p m.redis)
      go false = defer_pattern-settles key p m e
  invalidate_pattern-settles down key p m e c = go m.healthy
    where
      go : (b : Bool) → IsSettled key (if b then defer_pattern p (sick m) else defer_pattern p m)
      go true = defer_pattern-settles key p (sick m) e
      go false = defer_pattern-settles key p m e
  invalidate_pattern-settles raised key p m e c = absurd (cc)

  -- A loop settles what was settled, and what it goes over.
  delete_all-settles :
      (links : ℕ → Link) (n : ℕ) (key : Text) (keys : List Text) (m : CacheManager R)
      → ((k : ℕ) → is_caught (links k) ≡ true)
      → IsSettled key m ⊎ (exists (text_eq key) keys ≡ true)
      → IsSettled key (delete_all links n keys m)
  unfolding delete_all
  delete_all-settles links n key [] m c (inl s) = s
  delete_all-settles links n key [] m c (inr h) = absurd (cc)
  delete_all-settles links n key (j ∷ keys) m c (inl s) =
      delete_all-settles links (suc n) key keys (delete (links n) j m) c
        (inl (delete-IsSettled (links n) key j m s))
  delete_all-settles links n key (j ∷ keys) m c (inr h) = elim (Bool-cases (text_eq key j)) [
    | inl e ↦ delete_all-settles links (suc n) key keys (delete (links n) j m) c (
        inl (
          subst (λ k. IsSettled key (delete (links n) k m)) (text_eq→eq key j e)
            (delete-settles (links n) key m (ground (arith, c n)))))
    | inr e ↦
        delete_all-settles links (suc n) key keys (delete (links n) j m) c (inr (ground arith))
  ]

  invalidate_all-settles :
      (links : ℕ → Link) (n : ℕ) (key : Text) (ps : List Text) (m : CacheManager R)
      → ((k : ℕ) → is_caught (links k) ≡ true)
      → IsSettled key m ⊎ (exists (λ p. Redis.matches R p key) ps ≡ true)
      → IsSettled key (invalidate_all links n ps m)
  unfolding invalidate_all
  invalidate_all-settles links n key [] m c (inl s) = s
  invalidate_all-settles links n key [] m c (inr h) = absurd (cc)
  invalidate_all-settles links n key (p ∷ ps) m c (inl s) =
      invalidate_all-settles links (suc n) key ps (invalidate_pattern (links n) p m) c
        (inl (invalidate_pattern-IsSettled (links n) key p m s))
  invalidate_all-settles links n key (p ∷ ps) m c (inr h) =
      elim (Bool-cases (Redis.matches R p key)) [
        | inl e ↦
            invalidate_all-settles links (suc n) key ps (invalidate_pattern (links n) p m) c
              (inl (invalidate_pattern-settles (links n) key p m e (c n)))
        | inr e ↦
            invalidate_all-settles links (suc n) key ps (invalidate_pattern (links n) p m) c
              (inr (ground arith))
      ]

  pub replay_pending-IsSettled :
      (links : ℕ → Link) (key : Text) (m : CacheManager R)
      → ((n : ℕ) → is_caught (links n) ≡ true)
      → is_known key ≡ true
      → IsSettled key m
      → IsSettled key (replay_pending links m)
  unfolding replay_pending
  replay_pending-IsSettled links key m a k s =
      go m.pending_overflow (Bool-cases (exists (λ p. Redis.matches R p key) m.pending_patterns)) s
    where
      deletes : CacheManager R
      deletes = delete_all links 0 m.pending_deletes (no_pending m)

      go :
          (b : Bool)
          → (exists (λ p. Redis.matches R p key) m.pending_patterns ≡ true)
            ⊎ (exists (λ p. Redis.matches R p key) m.pending_patterns ≡ false)
          → Redis.holds R key m.redis
              && not (
                  b
                  || exists (text_eq key) m.pending_deletes
                  || exists (λ p. Redis.matches R p key) m.pending_patterns)
            ≡ false
          → IsSettled key (
              if b
              then invalidate_all links 0 (star known_prefixes) (no_pending m)
              else invalidate_all links (length m.pending_deletes) m.pending_patterns deletes)
      go true c s =
          invalidate_all-settles links 0 key (star known_prefixes) (no_pending m) a
            (inr (star-matches R key known_prefixes known_prefixes-plain k))
      go false (inl e) s =
          invalidate_all-settles links (length m.pending_deletes) key m.pending_patterns deletes a
            (inr e)
      go false (inr e) s =
          invalidate_all-settles links (length m.pending_deletes) key m.pending_patterns deletes a (
            inl
              (delete_all-settles links 0 key m.pending_deletes (no_pending m) a (split _ _ _ e s)))

  pub check_health-IsSettled :
      (link : Link) (links : ℕ → Link) (key : Text) (m : CacheManager R)
      → ((n : ℕ) → is_caught (links n) ≡ true)
      → is_known key ≡ true
      → IsSettled key m
      → IsSettled key (check_health link links m).1
  unfolding check_health
  check_health-IsSettled down links key m a k s = s
  check_health-IsSettled raised links key m a k s = s
  check_health-IsSettled up links key m a k s = go (not m.healthy || has_pending m)
    where
      go :
          (b : Bool)
          → IsSettled key (
              if b
              then replay_pending links (record m { healthy = true })
              else record m { healthy = true })
      go true = replay_pending-IsSettled links key (record m { healthy = true }) a k s
      go false = s
