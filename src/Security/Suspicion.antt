-- ===== src/Security/Suspicion.antt =====
-- `check_suspicious_patterns` of bot/middleware/security.py.
use telegramshop_zijjn.Prelude.{
  ℕ, ◌+◌, ◌==◌, ltb, leb, if◌then◌else◌, Bool, ◌&&◌, ◌||◌, [], ◌∷◌, Text, codes, map, starts_with,
  length,
}

-- A character without regard to case, as `re.IGNORECASE` compares it with the letters of ASCII: the
-- long s, the Kelvin sign and the two i of Turkish go with s, k and i.
abbrev pub fold_case : ℕ → ℕ
fold_case c =
    if leb b'A' c && leb c b'Z'
    then c + 32
    else if c == 0x17f
    then b's'
    else if c == 0x212a
    then b'k'
    else if c == 0x130 || c == 0x131
    then b'i'
    else c

pub contains : Text → Text → Bool
contains p [] = starts_with p []
contains p (c ∷ cs) = starts_with p (c ∷ cs) || contains p cs

unfoldable pub check_suspicious_patterns : Text → Bool
unfolding contains
check_suspicious_patterns text =
    ltb 4096 (length text)
    || contains (codes "<script") (map fold_case text)
    || contains (codes "javascript:") (map fold_case text)
    || contains (codes "onerror=") (map fold_case text)
    || contains (codes "onclick=") (map fold_case text)
