-- ===== src/RoleManagement/Payload.antt =====
-- The payload of the buttons of `assign_role_list`, `asr_{role}_{user}`, and how `assign_role_confirm`
-- of role_management.py reads it: the pattern `^asr_(\d+)_(\d+)$`, the parts between `_`, and `int`.
use telegramshop_zijjn.Prelude.{
  ℕ, zero, suc, ◌+◌, ◌-◌, ◌*◌, ◌/◌, ◌%◌, ◌≤◌, ◌<◌, ◌≡◌, refl, ap, subst, sym, ◌∙◌, arith, leb, ◌==◌,
  if◌then◌else◌, Bool, true, false, ◌&&◌, Option, none, some, [], ◌∷◌, ◌++◌, Text, codes, decimal,
  digits, Bool-cases, inl, inr,
}
use mathlib.Core.List.{append-nil}

-- `\d`, for the digits of ASCII.
abbrev pub is_digit : ℕ → Bool
is_digit c = leb 48 c && leb c 57

-- The number that the digits in front continue, and the text after them.
pub read_digits : ℕ → Text → ℕ × Text
read_digits acc [] = (acc, [])
read_digits acc (c ∷ cs) =
    let more = read_digits (10 * acc + (c - 48)) cs in if is_digit c then more else (acc, c ∷ cs)

-- `(\d+)`
pub read_number : Text → Option (ℕ × Text)
read_number [] = none
read_number (c ∷ cs) = if is_digit c then some (read_digits 0 (c ∷ cs)) else none

pub after_prefix : Text → Text → Option Text
after_prefix [] t = some t
after_prefix (x ∷ p) [] = none
after_prefix (x ∷ p) (c ∷ cs) = if x == c then after_prefix p cs else none

-- `$` lets a final newline pass, and `int` ignores it.
pub at_end : Text → Bool
at_end [] = true
at_end (c ∷ []) = c == 10
at_end (c ∷ d ∷ cs) = false

pub second_id : ℕ → Option (ℕ × Text) → Option (ℕ × ℕ)
second_id role_id none = none
second_id role_id (some (target_id, rest)) = if at_end rest then some (role_id, target_id) else none

pub underscore : ℕ → Option Text → Option (ℕ × ℕ)
underscore role_id none = none
underscore role_id (some t) = second_id role_id (read_number t)

pub first_id : Option (ℕ × Text) → Option (ℕ × ℕ)
first_id none = none
first_id (some (role_id, t)) = underscore role_id (after_prefix (codes "_") t)

pub after_tag : Option Text → Option (ℕ × ℕ)
after_tag none = none
after_tag (some t) = first_id (read_number t)

-- The role and the user of a payload that the pattern accepts.
unfoldable pub parse_assign : Text → Option (ℕ × ℕ)
unfolding after_prefix after_tag first_id underscore second_id at_end read_number read_digits
parse_assign payload = after_tag (after_prefix (codes "asr_") payload)

-- f"asr_{role['id']}_{target_id}"
unfoldable pub assign_payload : ℕ → ℕ → Text
assign_payload role_id target_id = codes "asr_" ++ (decimal role_id ++ b'_' ∷ decimal target_id)

-- A digit in front.
read_digits-digit :
    (acc d : ℕ) (rest : Text)
    → d ≤ 9
    → read_digits acc ((48 + d) ∷ rest) ≡ read_digits (10 * acc + d) rest
unfolding read_digits
read_digits-digit acc d rest h =
    let q : is_digit (48 + d) ≡ true = ground arith in
    let z : 10 * acc + (48 + d - 48) ≡ 10 * acc + d = omega arith in rw (q, z) refl

read_digits-digits :
    (fuel n : ℕ) (rest : Text) → n < fuel → read_digits 0 (digits fuel n rest) ≡ read_digits n rest
unfolding digits
read_digits-digits zero n rest h = absurd (omega arith)
read_digits-digits (suc fuel) n rest h = elim (Bool-cases (leb n 9)) [
  | inl e ↦
      rw e (read_digits-digit 0 n rest (ground arith) ∙ ap (λ k. read_digits k rest) (omega arith))
  | inr e ↦
      let small : n / 10 < fuel = ground arith in
      rw e (
        read_digits-digits fuel (n / 10) ((48 + n % 10) ∷ rest) small
        ∙ read_digits-digit (n / 10) (n % 10) rest (omega arith)
        ∙ ap (λ k. read_digits k rest) (omega arith))
]

-- The text of a number begins with a digit.
digits-head :
    (fuel n : ℕ) (rest : Text)
    → n < fuel
    → (c : ℕ) × (cs : Text) × (digits fuel n rest ≡ c ∷ cs) × (is_digit c ≡ true)
unfolding digits
digits-head zero n rest h = absurd (omega arith)
digits-head (suc fuel) n rest h = elim (Bool-cases (leb n 9)) [
  | inl e ↦ (48 + n, rest, rw e refl, ground arith)
  | inr e ↦
      let small : n / 10 < fuel = ground arith in
      let d = digits-head fuel (n / 10) ((48 + n % 10) ∷ rest) small in (d.0, d.1, rw e d.2, d.3)
]

digits-append : (fuel n : ℕ) (s t : Text) → digits fuel n s ++ t ≡ digits fuel n (s ++ t)
unfolding digits
digits-append zero n s t = refl
digits-append (suc fuel) n s t = elim (Bool-cases (leb n 9)) [
  | inl e ↦ rw e refl
  | inr e ↦ rw e (digits-append fuel (n / 10) ((48 + n % 10) ∷ s) t)
]

-- A number is read back, up to a text that does not continue it.
read_number-decimal :
    (n : ℕ) (t : Text) → read_digits n t ≡ (n, t) → read_number (decimal n ++ t) ≡ some (n, t)
unfolding decimal read_number
read_number-decimal n t stop =
    let d = digits-head (suc n) n t (omega arith) in
    let r = read_digits-digits (suc n) n t (omega arith) in
    rw (digits-append (suc n) n [] t, d.2, d.3) (ap some (ap (read_digits 0) (sym d.2) ∙ r ∙ stop))

read_number-last : (n : ℕ) → read_number (decimal n) ≡ some (n, [])
unfolding read_digits
read_number-last n =
    subst (λ t. read_number t ≡ some (n, [])) (append-nil (decimal n))
      (read_number-decimal n [] refl)

read_number-first : (n : ℕ) (t : Text) → read_number (decimal n ++ 95 ∷ t) ≡ some (n, 95 ∷ t)
unfolding read_digits
read_number-first n t = read_number-decimal n (95 ∷ t) refl

-- The payload of a button gives back the role and the user that it was made for.
pub parse_assign-assign_payload :
    (role_id target_id : ℕ)
    → parse_assign (assign_payload role_id target_id) ≡ some (role_id, target_id)
unfolding parse_assign assign_payload
parse_assign-assign_payload i j =
    ap first_id (read_number-first i (decimal j)) ∙ ap (second_id i) (read_number-last j)
