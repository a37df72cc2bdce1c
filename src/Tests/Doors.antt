-- ===== src/Tests/Doors.antt =====
-- Events at the gates.
use telegramshop_zijjn.Prelude.{ℕ, ◌≡◌, ltb, if◌then◌else◌, true, false, some, [], ◌∷◌, codes, List}
use telegramshop_zijjn.Security.{Authentication, Event, callback, Sender, Moment, missing, admit}
use telegramshop_zijjn.Security.Gates.{let_through, may_pass, admit-may_pass}
use telegramshop_zijjn.Security.Freshness.{CacheUse, look, invalidate}

abbrev closed : Authentication
closed = record { blocked_users = 7 ∷ []; admin_cache = []; maintenance_mode = true }

abbrev moment : Moment
moment = record { now = 5000; is_user_blocked = false; shared_role = missing; check_role = 33 }

abbrev admin : Sender
admin = record { id = 7; is_bot = false }

abbrev purchase : Event
purchase = callback (some (codes "buy_key")) (some 4000)

gate_example :
    (admit moment purchase (some admin) closed).0
    ≡ let_through (may_pass moment purchase admin closed)
gate_example = admit-may_pass moment purchase admin closed

-- The user is an administrator until the time 100.
abbrev role_at : ℕ → ℕ → ℕ
role_at now user_id = if ltb now 100 then 33 else 1

abbrev looks : List CacheUse
looks = look 50 true 7 ∷ look 60 false 8 ∷ invalidate 8 ∷ []
