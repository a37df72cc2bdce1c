-- ===== src/Security.antt =====
-- The gates of bot/middleware/security.py: `AuthenticationMiddleware`, with its caches of roles, and behind
-- it `SecurityMiddleware`, in the order of bot/main.py.
pub mod Suspicion
pub mod Freshness
pub mod Gates
use telegramshop_zijjn.Prelude.{
  ℕ, ◌+◌, ◌-◌, ◌==◌, ltb, leb, if◌then◌else◌, Bool, true, false, not, ◌&&◌, ◌||◌, Option, none,
  some, List, [], ◌∷◌, ◌++◌, Text, codes, starts_with, first, exists, delete_where, length,
}
use telegramshop_zijjn.Models.Permission.{has_any_admin_perm}
use telegramshop_zijjn.Security.Suspicion.{check_suspicious_patterns}

-- What arrives: a message with its text, a callback with its data and the time of its message.
pub data Event : Type 0 where
  message : Option Text → Event
  callback : Option Text → Option ℕ → Event

pub record Sender : Type 0 where
  pub id : ℕ
  pub is_bot : Bool

-- `admin_cache`: a user, a role and when it was read.
pub record CachedRole : Type 0 where
  pub user_id : ℕ
  pub role : ℕ
  pub timestamp : ℕ

pub record Authentication : Type 0 where
  pub blocked_users : List ℕ
  pub admin_cache : List CachedRole
  pub maintenance_mode : Bool

abbrev pub cache_ttl : ℕ
cache_ttl = 300

-- The entry of `auth:role:` in Redis: no usable Redis, no entry, or a role.
pub data SharedRole : Type 0 where
  unavailable missing : SharedRole
  shared : ℕ → SharedRole

abbrev pub is_entry : ℕ → CachedRole → Bool
is_entry user_id e = e.user_id == user_id

abbrev pub without : ℕ → List CachedRole → List CachedRole
without user_id es = delete_where (is_entry user_id) es

-- The role is read from the database, and kept unless it is 0, the role of an unknown user.
pub download : ℕ → ℕ → ℕ → Authentication → ℕ × Authentication
download now user_id role m = if role == 0 then (role, m) else (
  role,
  record m {
    admin_cache =
        record { user_id = user_id; role = role; timestamp = now } ∷ without user_id m.admin_cache;
  },
)

pub from_memory : ℕ → ℕ → ℕ → Option CachedRole → Authentication → ℕ × Authentication
from_memory now user_id role none m = download now user_id role m
from_memory now user_id role (some e) m =
    if ltb (now - e.timestamp) cache_ttl then (e.role, m) else download now user_id role m

-- `role` is what `check_role` answers.
unfoldable pub get_user_role_cached : ℕ → SharedRole → ℕ → ℕ → Authentication → ℕ × Authentication
unfolding from_memory download
get_user_role_cached now (shared r) role user_id m = (r, m)
get_user_role_cached now missing role user_id m =
    from_memory now user_id role (first (is_entry user_id) m.admin_cache) m
get_user_role_cached now unavailable role user_id m =
    from_memory now user_id role (first (is_entry user_id) m.admin_cache) m

-- What a middleware reads of the world for one event.
pub record Moment : Type 0 where
  pub now : ℕ
  pub is_user_blocked : Bool
  pub shared_role : SharedRole
  pub check_role : ℕ

pub data Verdict : Type 0 where
  passed dropped : Verdict

abbrev pub is_admin_action : Event → Bool
is_admin_action (message text) = false
is_admin_action (callback none date) = false
is_admin_action (callback (some t) date) =
    starts_with (codes "admin") t
    || starts_with (codes "console") t
    || starts_with (codes "send_message") t

abbrev pub discard : ℕ → List ℕ → List ℕ
discard i is = delete_where (λ j. j == i) is

abbrev pub add_user : ℕ → List ℕ → List ℕ
add_user i is = if exists (λ j. j == i) is then is else i ∷ is

-- The check of an admin action.
pub admin_gate : Moment → Event → Sender → Authentication → Verdict × Authentication
admin_gate w e u m =
    if is_admin_action e
    then (let r = get_user_role_cached w.now w.shared_role w.check_role u.id m in
        (if has_any_admin_perm r.0 then passed else dropped, r.1))
    else (passed, m)

pub maintenance_gate : Moment → Event → Sender → Authentication → Verdict × Authentication
maintenance_gate w e u m =
    if m.maintenance_mode
    then (let r = get_user_role_cached w.now w.shared_role w.check_role u.id m in
        if has_any_admin_perm r.0 then admin_gate w e u r.1 else (dropped, r.1))
    else admin_gate w e u m

-- `AuthenticationMiddleware.__call__`; an event without a sender passes.
pub authenticate : Moment → Event → Option Sender → Authentication → Verdict × Authentication
authenticate w e none m = (passed, m)
authenticate w e (some u) m =
    if w.is_user_blocked
    then (dropped, record m { blocked_users = add_user u.id m.blocked_users })
    else if u.is_bot
    then (dropped, record m { blocked_users = discard u.id m.blocked_users })
    else maintenance_gate w e u (record m { blocked_users = discard u.id m.blocked_users })

abbrev pub is_replay_protected : Text → Bool
is_replay_protected t =
    starts_with (codes "buy_") t
    || starts_with (codes "pay_") t
    || starts_with (codes "fill-user-balance") t
    || starts_with (codes "deduct-user-balance") t

-- The message of the callback is older than an hour.
abbrev pub is_outdated : ℕ → Option ℕ → Bool
is_outdated now none = false
is_outdated now (some date) = ltb 3600 (now - date)

-- `SecurityMiddleware.__call__`, as far as it lets an event through.
pub secure : ℕ → Event → Verdict
secure now (message text) = passed
secure now (callback none date) = passed
secure now (callback (some t) date) =
    if is_replay_protected t && is_outdated now date
    then dropped
    else if check_suspicious_patterns t
    then dropped
    else passed

pub then_secure : ℕ → Event → Verdict × Authentication → Verdict × Authentication
then_secure now e (dropped, m) = (dropped, m)
then_secure now e (passed, m) = (secure now e, m)

-- The two gates in a row.
pub admit : Moment → Event → Option Sender → Authentication → Verdict × Authentication
admit w e u m = then_secure w.now e (authenticate w e u m)

-- The in-memory part of `invalidate_auth_caches` and of `clear_role_auth_caches`.
pub invalidate_auth_caches : ℕ → Authentication → Authentication
invalidate_auth_caches user_id m = record m {
  admin_cache = without user_id m.admin_cache;
  blocked_users = discard user_id m.blocked_users;
}

pub clear_role_auth_caches : Authentication → Authentication
clear_role_auth_caches m = record m { admin_cache = [] }
