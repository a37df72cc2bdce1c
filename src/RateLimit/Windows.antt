-- ===== src/RateLimit/Windows.antt =====
-- No window holds more requests than the limit.
use telegramshop_zijjn.Prelude.{
  ℕ, leb, ◌≤◌, ◌≡◌, refl, ◌∙◌, sym, arith, if◌then◌else◌, List, [], ◌∷◌, ◌++◌, length,
  length-append, length-select_where-le, Bool-cases, inl, inr,
}
use telegramshop_zijjn.RateLimit.{Limit, is_recent, clean_old_requests, admit}

-- The requests of one user against one limit, at the times of a list: the times kept, and the
-- times of all the requests that passed.
pub run_requests : Limit → List ℕ → List ℕ → List ℕ → List ℕ × List ℕ
run_requests l [] kept passed = (kept, passed)
run_requests l (now ∷ times) kept passed =
    let (ok, kept2) = admit l now kept in
    run_requests l times kept2 (if ok then passed ++ now ∷ [] else passed)

-- The times do not go back, and start no earlier than `from`.
abbrev pub Forward : ℕ → List ℕ → Type 0
Forward from [] = Unit
Forward from (t ∷ ts) = (from ≤ t) × Forward t ts

-- What is kept is what passed and was recent when the clock was last read.
pub record IsWindow (l : Limit) (last : ℕ) (kept passed : List ℕ) : Type 0 where
  pub bounded : length kept ≤ l.requests
  pub recent :
      (now : ℕ)
      → last ≤ now
      → clean_old_requests l.window now passed ≡ clean_old_requests l.window now kept

-- A second cleaning, later, is the only one that counts.
pub clean-clean :
    (window t now : ℕ) (xs : List ℕ)
    → t ≤ now
    → clean_old_requests window now (clean_old_requests window t xs)
      ≡ clean_old_requests window now xs
clean-clean w t now [] h = refl
clean-clean w t now (x ∷ xs) h = ground (arith, clean-clean w t now xs h)

pub clean-append :
    (window now : ℕ) (xs ys : List ℕ)
    → clean_old_requests window now (xs ++ ys)
      ≡ clean_old_requests window now xs ++ clean_old_requests window now ys
clean-append w now [] ys = refl
clean-append w now (x ∷ xs) ys = ground (arith, clean-append w now xs ys)

admit-IsWindow :
    (l : Limit) (last t : ℕ) (kept passed : List ℕ)
    → last ≤ t
    → IsWindow l last kept passed
    → IsWindow l t (admit l t kept).1 (if (admit l t kept).0 then passed ++ t ∷ [] else passed)
unfolding admit
admit-IsWindow l last t kept passed h w =
    elim (Bool-cases (leb l.requests (length (clean_old_requests l.window t kept)))) [
      | inl e ↦ rw e (record {
        bounded = omega (arith, w.bounded, length-select_where-le (is_recent l.window t) kept);
        recent =
            λ now k. w.recent now (omega (arith, h, k)) ∙ sym (clean-clean l.window t now kept k);
      })
      | inr e ↦ rw e (record {
        bounded = ground (arith, length-append (clean_old_requests l.window t kept) (t ∷ []));
        recent = λ now k.
            clean-append l.window now passed (t ∷ [])
            ∙ rw
                (
                  w.recent now (omega (arith, h, k)),
                  clean-append l.window now (clean_old_requests l.window t kept) (t ∷ []),
                  clean-clean l.window t now kept k,
                )
                refl;
      })
    ]

run_requests-IsWindow :
    (l : Limit) (times : List ℕ) (last : ℕ) (kept passed : List ℕ)
    → Forward last times
    → IsWindow l last kept passed
    → (now : ℕ) → Forward last (times ++ now ∷ [])
    → length (clean_old_requests l.window now (run_requests l times kept passed).1) ≤ l.requests
unfolding run_requests
run_requests-IsWindow l [] last kept passed f w now g =
    rw (w.recent now g.0)
      (omega (arith, w.bounded, length-select_where-le (is_recent l.window now) kept))
run_requests-IsWindow l (t ∷ ts) last kept passed f w now g =
    run_requests-IsWindow l ts t _ _ f.1 (admit-IsWindow l last t kept passed f.0 w) now g.1

-- Whenever requests arrive, by a clock that does not run back, at most `limit` of the requests that
-- passed lie in the window that ends at any later time.
pub run_requests-bounded :
    (l : Limit) (times : List ℕ) (now : ℕ)
    → Forward 0 times
    → Forward 0 (times ++ now ∷ [])
    → length (clean_old_requests l.window now (run_requests l times [] []).1) ≤ l.requests
run_requests-bounded l times now f g =
    run_requests-IsWindow l times 0 [] [] f
      (record { bounded = omega arith; recent = λ now k. refl }) now g
