-- ===== src/Cache/Server.antt =====
-- What the cache manager relies on of Redis, the server outside the repository: SETEX stores a key, DEL removes it, and
-- SCAN with MATCH and a DEL of what it found removes the keys that match a pattern.
use telegramshop_zijjn.Prelude.{
  ℕ, ◌≡◌, Bool, true, not, ◌&&◌, ◌||◌, ◌==◌, [], ◌∷◌, ◌++◌, Text, text_eq, starts_with,
}

-- None of the characters `*?[]\` that a pattern reads specially.
abbrev pub is_special : ℕ → Bool
is_special c = c == 42 || c == 63 || c == 91 || c == 93 || c == 92

abbrev pub is_plain : Text → Bool
is_plain [] = true
is_plain (c ∷ cs) = not (is_special c) && is_plain cs

pub record Redis : Type 1 where
  pub State : Type 0
  pub holds : Text → State → Bool
  pub matches : Text → Text → Bool
  pub store : Text → State → State
  pub remove : Text → State → State
  pub remove_matching : Text → State → State
  pub holds-store : (k j : Text) (s : State) → holds k (store j s) ≡ (holds k s || text_eq k j)
  pub holds-remove :
      (k j : Text) (s : State) → holds k (remove j s) ≡ holds k s && not (text_eq k j)
  pub holds-remove_matching :
      (k p : Text) (s : State) → holds k (remove_matching p s) ≡ holds k s && not (matches p k)
  pub matches_prefix :
      (p k : Text) → is_plain p ≡ true → starts_with p k ≡ true → matches (p ++ 42 ∷ []) k ≡ true
