-- ===== src/Broadcast.antt =====
-- `BroadcastManager` of bot/misc/services/broadcast_system.py: a mailing in batches, with retries.
-- What Telegram answers to the attempts is an argument, and so is the time of a cancellation.
pub mod Stats
use telegramshop_zijjn.Prelude.{
  ℕ, zero, suc, ◌+◌, ◌-◌, ltb, if◌then◌else◌, Bool, true, false, Option, none, some, List, [], ◌∷◌,
  ◌++◌, map, take, drop, length,
}

-- How one call of `bot.send_message` ends.
pub data Answer : Type 0 where
  delivered retry_after forbidden bad_request unknown_error : Answer

pub data SendResult : Type 0 where
  sent blocked failed : SendResult

-- One attempt decides, unless it is to be repeated.
abbrev pub verdict : Answer → Option SendResult
verdict delivered = some sent
verdict retry_after = none
verdict forbidden = some blocked
verdict bad_request = some failed
verdict unknown_error = none

-- The attempts `attempt`, `attempt + 1`, … of which `remaining` are left; the last one does not wait
-- for another.
pub send_attempts : ℕ → ℕ → (ℕ → Answer) → SendResult
send_attempts zero attempt answers = failed
send_attempts (suc remaining) attempt answers = elim (verdict (answers attempt)) [
  | some r ↦ r
  | none ↦ send_attempts remaining (suc attempt) answers
]

unfoldable pub send_message_safe : ℕ → (ℕ → Answer) → SendResult
send_message_safe retry_count answers = send_attempts retry_count 0 answers

-- The counters of `BroadcastStats`; `total` is set once.
pub record BroadcastStats : Type 0 where
  pub total : ℕ
  pub sent_count : ℕ
  pub failed_count : ℕ
  pub blocked_count : ℕ

abbrev pub tally : SendResult → BroadcastStats → BroadcastStats
tally sent s = record s { sent_count = s.sent_count + 1 }
tally blocked s = record s { blocked_count = s.blocked_count + 1 }
tally failed s = record s { failed_count = s.failed_count + 1 }

pub tally_all : List SendResult → BroadcastStats → BroadcastStats
tally_all [] s = s
tally_all (r ∷ rs) s = tally_all rs (tally r s)

-- The manager's settings, what Telegram answers to each user, and whether the mailing was cancelled
-- before its n-th batch.
pub record Mailing : Type 0 where
  pub batch_size : ℕ
  pub retry_count : ℕ
  pub answers : ℕ → ℕ → Answer
  pub is_cancelled : ℕ → Bool

abbrev pub send_batch : Mailing → List ℕ → List SendResult
send_batch m user_ids = map (λ u. send_message_safe m.retry_count (m.answers u)) user_ids

-- `for i in range(0, len(user_ids), batch_size)`, on fuel; `n` counts the batches before.
pub send_batches : ℕ → Mailing → ℕ → List ℕ → BroadcastStats → BroadcastStats
send_batches zero m n user_ids s = s
send_batches (suc fuel) m n [] s = s
send_batches (suc fuel) m n (u ∷ us) s =
    let batch = take m.batch_size (u ∷ us) in
    let rest =
      send_batches fuel m (suc n) (drop m.batch_size (u ∷ us)) (tally_all (send_batch m batch) s) in
    if m.is_cancelled n then s else rest

-- A batch takes one user at least, so that the number of users is fuel enough.
unfoldable pub broadcast : Mailing → List ℕ → BroadcastStats
broadcast m user_ids =
    send_batches (length user_ids) m 0 user_ids
      (record { total = length user_ids; sent_count = 0; failed_count = 0; blocked_count = 0 })
