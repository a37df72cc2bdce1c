-- ===== src/Tests/Caching.antt =====
-- A server that holds a list of keys, and the cache manager on it.
use telegramshop_zijjn.Prelude.{
  ℕ, ◌≡◌, refl, subst, arith, ltb, if◌then◌else◌, Bool, true, false, not, ◌&&◌, ◌||◌, ◌==◌, List,
  [], ◌∷◌, ◌++◌, Text, text_eq, text_eq→eq, codes, exists, delete_where, starts_with, Bool-cases,
  inl, inr,
}
use telegramshop_zijjn.Cache.Server.{Redis, is_plain}
use telegramshop_zijjn.Cache.{
  up, down, raised, Link, is_caught, CacheManager, CacheOp, check_health, run_ops, delete,
}
use telegramshop_zijjn.Cache.History.{invalidated-gone, spares}

-- Patterns with `*`.
glob : Text → Text → Bool
glob [] [] = true
glob [] (c ∷ cs) = false
glob (x ∷ p) [] = x == 42 && glob p []
glob (x ∷ p) (c ∷ cs) =
    let here = glob p (c ∷ cs) in
    let later = glob (x ∷ p) cs in
    let same = glob p cs in if x == 42 then here || later else x == c && same

glob-star : (k : Text) → glob (42 ∷ []) k ≡ true
unfolding glob
glob-star [] = refl
glob-star (c ∷ cs) = glob-star cs

glob-prefix :
    (p k : Text) → is_plain p ≡ true → starts_with p k ≡ true → glob (p ++ 42 ∷ []) k ≡ true
unfolding glob
glob-prefix [] k a h = glob-star k
glob-prefix (x ∷ p) [] a h = absurd (cc)
glob-prefix (x ∷ p) (c ∷ cs) a h = ground (arith, glob-prefix p cs)

exists-delete_where :
    (k : Text) (q : Text → Bool) (s : List Text)
    → exists (text_eq k) (delete_where q s) ≡ exists (text_eq k) s && not (q k)
exists-delete_where k q [] = refl
exists-delete_where k q (x ∷ s) = elim (Bool-cases (text_eq k x)) [
  | inl e ↦
      let z = subst (λ y. q y ≡ q k) (text_eq→eq k x e) refl in
      ground (arith, exists-delete_where k q s)
  | inr e ↦ ground (arith, exists-delete_where k q s)
]

text_eq_sym : (s t : Text) → text_eq s t ≡ text_eq t s
text_eq_sym [] [] = refl
text_eq_sym [] (y ∷ t) = refl
text_eq_sym (x ∷ s) [] = refl
text_eq_sym (x ∷ s) (y ∷ t) = ground (arith, text_eq_sym s t)

holds-cons :
    (k j : Text) (s : List Text)
    → exists (text_eq k) (j ∷ s) ≡ (exists (text_eq k) s || text_eq k j)
holds-cons k j s = ground arith

holds-delete :
    (k j : Text) (s : List Text)
    → exists (text_eq k) (delete_where (text_eq j) s) ≡ exists (text_eq k) s && not (text_eq k j)
holds-delete k j s = ground (arith, exists-delete_where k (text_eq j) s, text_eq_sym k j)

abbrev memory : Redis
memory = record {
  State = List Text;
  holds = λ k s. exists (text_eq k) s;
  matches = glob;
  store = λ k s. k ∷ s;
  remove = λ k s. delete_where (text_eq k) s;
  remove_matching = λ p s. delete_where (λ k. glob p k) s;
  holds-store = holds-cons;
  holds-remove = holds-delete;
  holds-remove_matching = λ k p s. exists-delete_where k (λ j. glob p j) s;
  matches_prefix = glob-prefix;
}

abbrev manager : CacheManager memory
manager = record {
  redis = codes "role:7" ∷ codes "user:7" ∷ [];
  healthy = true;
  pending_deletes = [];
  pending_patterns = [];
  pending_overflow = false;
}

-- The replay after an outage breaks off midway; the monitor raises the flag.
abbrev broken : ℕ → Link
broken n = if ltb n 1 then up else down

broken-caught : (n : ℕ) → is_caught (broken n) ≡ true
broken-caught n = elim (Bool-cases (ltb n 1)) [ inl e ↦ rw e refl | inr e ↦ rw e refl ]

abbrev outage : List CacheOp
outage =
    CacheOp.invalidating raised (codes "role:7")
    ∷ CacheOp.invalidating_pattern down (codes "stats:*")
    ∷ CacheOp.checking up broken
    ∷ CacheOp.monitoring up
    ∷ CacheOp.storing up (codes "user:8")
    ∷ []

abbrev recovered : CacheManager memory
recovered = (check_health up (λ _. up) (run_ops outage (delete down (codes "user:7") manager))).1

gone_example : Redis.holds memory (codes "user:7") recovered.redis ≡ false
unfolding spares
gone_example =
    invalidated-gone down (codes "user:7") outage manager refl refl refl (broken-caught, tt)
