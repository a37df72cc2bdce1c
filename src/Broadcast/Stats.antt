-- ===== src/Broadcast/Stats.antt =====
-- The statistics of a mailing account for every user.
use telegramshop_zijjn.Prelude.{
  ℕ, zero, suc, ◌+◌, ◌≤◌, ◌≡◌, refl, arith, false, List, [], ◌∷◌, map, take, drop, length,
}
use telegramshop_zijjn.Broadcast.{
  SendResult, sent, blocked, failed, BroadcastStats, tally, tally_all, Mailing, send_batch,
  send_batches, broadcast, send_message_safe,
}

abbrev pub accounted : BroadcastStats → ℕ
accounted s = s.sent_count + s.failed_count + s.blocked_count

tally-accounted : (r : SendResult) (s : BroadcastStats) → accounted (tally r s) ≡ accounted s + 1
tally-accounted sent s = omega arith
tally-accounted blocked s = omega arith
tally-accounted failed s = omega arith

tally_all-accounted :
    (rs : List SendResult) (s : BroadcastStats)
    → accounted (tally_all rs s) ≡ accounted s + length rs
unfolding tally_all
tally_all-accounted [] s = omega arith
tally_all-accounted (r ∷ rs) s =
    omega (arith, tally_all-accounted rs (tally r s), tally-accounted r s)

length-map : {A B : Type 0} (f : A → B) (xs : List A) → length (map f xs) ≡ length xs
length-map f [] = refl
length-map f (x ∷ xs) = omega (arith, length-map f xs)

length-take-drop :
    {A : Type 0} (n : ℕ) (xs : List A) → length (take n xs) + length (drop n xs) ≡ length xs
length-take-drop zero xs = omega arith
length-take-drop (suc n) [] = omega arith
length-take-drop (suc n) (x ∷ xs) = omega (arith, length-take-drop n xs)

length-drop-lt :
    {A : Type 0} (n : ℕ) (x : A) (xs : List A) → 1 ≤ n → length (drop n (x ∷ xs)) ≤ length xs
length-drop-lt zero x xs h = absurd (omega (arith, h))
length-drop-lt (suc n) x xs h = omega (arith, length-take-drop n xs)

send_batches-accounted :
    (fuel : ℕ) (m : Mailing) (n : ℕ) (us : List ℕ) (s : BroadcastStats)
    → 1 ≤ m.batch_size
    → ((k : ℕ) → m.is_cancelled k ≡ false)
    → length us ≤ fuel
    → accounted (send_batches fuel m n us s) ≡ accounted s + length us
unfolding send_batches
send_batches-accounted zero m n [] s b c h = omega arith
send_batches-accounted zero m n (u ∷ us) s b c h = absurd (omega (arith, h))
send_batches-accounted (suc fuel) m n [] s b c h = omega arith
send_batches-accounted (suc fuel) m n (u ∷ us) s b c h =
    let batch = take m.batch_size (u ∷ us) in
    let rest = drop m.batch_size (u ∷ us) in
    rw (c n) (
      omega (
        arith,
        length-drop-lt m.batch_size u us b,
        send_batches-accounted fuel m (suc n) rest (tally_all (send_batch m batch) s) b c
            (omega (arith, h, length-drop-lt m.batch_size u us b)),
        tally_all-accounted (send_batch m batch) s,
        length-map (λ v. send_message_safe m.retry_count (m.answers v)) batch,
        length-take-drop m.batch_size (u ∷ us),
      ))

-- A mailing that is not cancelled accounts for every user once: those who got the message, those who
-- blocked the bot and those for whom it failed add up to the number of the users.
pub broadcast-accounted :
    (m : Mailing) (user_ids : List ℕ)
    → 1 ≤ m.batch_size
    → ((k : ℕ) → m.is_cancelled k ≡ false)
    → accounted (broadcast m user_ids) ≡ length user_ids
unfolding broadcast
broadcast-accounted m us b c = omega (
  arith,
  send_batches-accounted (length us) m 0 us
      (record { total = length us; sent_count = 0; failed_count = 0; blocked_count = 0 }) b c
      (omega arith),
)
