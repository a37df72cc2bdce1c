-- ===== src/Security/Gates.antt =====
-- What the two gates let through.
use telegramshop_zijjn.Prelude.{
  ℕ, ◌-◌, ◌==◌, ◌≡◌, ==_refl, refl, ap, ◌∙◌, arith, ltb, if◌then◌else◌, Bool, true, false, not,
  ◌&&◌, ◌||◌, Option, none, some, List, ◌∷◌, first, Bool-cases, inl, inr,
}
use telegramshop_zijjn.Models.Permission.{has_any_admin_perm}
use telegramshop_zijjn.Security.Suspicion.{check_suspicious_patterns}
use telegramshop_zijjn.Security.{
  Event, message, callback, Sender, CachedRole, Authentication, cache_ttl, SharedRole, unavailable,
  missing, shared, is_entry, without, download, from_memory, get_user_role_cached, Moment, Verdict,
  passed, dropped, is_admin_action, discard, add_user, admin_gate, maintenance_gate, authenticate,
  is_replay_protected, is_outdated, secure, then_secure, admit,
}

-- The role that a look gives, and the caches after it.
abbrev pub seen_role : Moment → ℕ → Authentication → ℕ
seen_role w i m = (get_user_role_cached w.now w.shared_role w.check_role i m).0

abbrev pub after_look : Moment → ℕ → Authentication → Authentication
after_look w i m = (get_user_role_cached w.now w.shared_role w.check_role i m).1

-- The blocked users do not matter to a look.
from_memory-blocked :
    (now i role : ℕ) (o : Option CachedRole) (bs : List ℕ) (m : Authentication)
    → (from_memory now i role o (record m { blocked_users = bs })).0
      ≡ (from_memory now i role o m).0
unfolding from_memory download
from_memory-blocked now i role none bs m = ground arith
from_memory-blocked now i role (some e) bs m = ground arith

seen_role-blocked :
    (w : Moment) (i : ℕ) (bs : List ℕ) (m : Authentication)
    → seen_role w i (record m { blocked_users = bs }) ≡ seen_role w i m
unfolding get_user_role_cached
seen_role-blocked w i bs m = go w.shared_role
  where
    go :
        (r : SharedRole)
        → (get_user_role_cached w.now r w.check_role i (record m { blocked_users = bs })).0
          ≡ (get_user_role_cached w.now r w.check_role i m).0
    go unavailable = from_memory-blocked w.now i w.check_role _ bs m
    go missing = from_memory-blocked w.now i w.check_role _ bs m
    go (shared r) = refl

memory_hit :
    (now i role : ℕ) (e : CachedRole) (m : Authentication)
    → ltb (now - e.timestamp) cache_ttl ≡ true
    → (from_memory now i role (some e) m).0 ≡ e.role
unfolding from_memory
memory_hit now i role e m h = rw h refl

again_download :
    (now i role : ℕ) (m : Authentication)
    → from_memory now i role (first (is_entry i) m.admin_cache) m ≡ download now i role m
    → let d = download now i role m in
      (from_memory now i role (first (is_entry i) d.1.admin_cache) d.1).0 ≡ d.0
unfolding download
again_download now i role m k = elim (Bool-cases (role == 0)) [
  | inl e ↦ let z : (download now i role m).0 ≡ role = rw e refl in rw e (ap (λ x. x.0) k ∙ z)
  | inr e ↦ rw e (stored (==_refl i))
]
  where
    entry : CachedRole
    entry = record { user_id = i; role = role; timestamp = now }

    after : Authentication
    after = record m { admin_cache = entry ∷ without i m.admin_cache }

    stored :
        i == i ≡ true
        → (from_memory now i role (first (is_entry i) after.admin_cache) after).0 ≡ role
    stored e = rw e (memory_hit now i role entry after (ground arith))

again_none :
    (now i role : ℕ) (m : Authentication)
    → first (is_entry i) m.admin_cache ≡ none
    → let a = from_memory now i role none m in
      (from_memory now i role (first (is_entry i) a.1.admin_cache) a.1).0 ≡ a.0
unfolding from_memory
again_none now i role m e = again_download now i role m (rw e refl)

again_some :
    (now i role : ℕ) (m : Authentication) (c : CachedRole)
    → first (is_entry i) m.admin_cache ≡ some c
    → let a = from_memory now i role (some c) m in
      (from_memory now i role (first (is_entry i) a.1.admin_cache) a.1).0 ≡ a.0
unfolding from_memory
again_some now i role m c e = elim (Bool-cases (ltb (now - c.timestamp) cache_ttl)) [
  | inl h ↦ rw (h, e) (memory_hit now i role c m h)
  | inr h ↦ rw h (again_download now i role m (rw (e, h) refl))
]

-- A second look at once sees the same role.
from_memory-again :
    (now i role : ℕ) (m : Authentication)
    → let a = from_memory now i role (first (is_entry i) m.admin_cache) m in
      (from_memory now i role (first (is_entry i) a.1.admin_cache) a.1).0 ≡ a.0
from_memory-again now i role m = go (first (is_entry i) m.admin_cache) refl
  where
    go :
        (o : Option CachedRole)
        → first (is_entry i) m.admin_cache ≡ o
        → let a = from_memory now i role o m in
          (from_memory now i role (first (is_entry i) a.1.admin_cache) a.1).0 ≡ a.0
    go none e = again_none now i role m e
    go (some c) e = again_some now i role m c e

seen_role-again :
    (w : Moment) (i : ℕ) (m : Authentication) → seen_role w i (after_look w i m) ≡ seen_role w i m
unfolding get_user_role_cached
seen_role-again w i m = go w.shared_role
  where
    go :
        (r : SharedRole)
        → (get_user_role_cached w.now r w.check_role i
            (get_user_role_cached w.now r w.check_role i m).1).0
          ≡ (get_user_role_cached w.now r w.check_role i m).0
    go unavailable = from_memory-again w.now i w.check_role m
    go missing = from_memory-again w.now i w.check_role m
    go (shared r) = refl

abbrev pub let_through : Bool → Verdict
let_through b = if b then passed else dropped

admin_gate-eq :
    (w : Moment) (e : Event) (u : Sender) (m : Authentication)
    → (admin_gate w e u m).0
      ≡ let_through (not (is_admin_action e) || has_any_admin_perm (seen_role w u.id m))
unfolding admin_gate
admin_gate-eq w e u m = elim (Bool-cases (is_admin_action e)) [
  | inl h ↦ rw h refl
  | inr h ↦ rw h refl
]

maintenance_gate-eq :
    (w : Moment) (e : Event) (u : Sender) (m : Authentication)
    → (maintenance_gate w e u m).0
      ≡ let_through
          (not (m.maintenance_mode || is_admin_action e) || has_any_admin_perm (seen_role w u.id m))
unfolding maintenance_gate
maintenance_gate-eq w e u m = go m.maintenance_mode
  where
    go :
        (b : Bool)
        → (if b
            then if has_any_admin_perm (seen_role w u.id m)
              then admin_gate w e u (after_look w u.id m)
              else (dropped, after_look w u.id m)
            else admin_gate w e u m).0
          ≡ let_through (not (b || is_admin_action e) || has_any_admin_perm (seen_role w u.id m))
    go false = admin_gate-eq w e u m
    go true = elim (Bool-cases (has_any_admin_perm (seen_role w u.id m))) [
      | inl h ↦
          let z = admin_gate-eq w e u (after_look w u.id m) in
          let y = ap has_any_admin_perm (seen_role-again w u.id m) in ground arith
      | inr h ↦ rw h refl
    ]

-- A callback that is neither outdated nor suspicious, or a message.
abbrev pub is_sound : ℕ → Event → Bool
is_sound now (message text) = true
is_sound now (callback none date) = true
is_sound now (callback (some t) date) =
    not (is_replay_protected t && is_outdated now date) && not (check_suspicious_patterns t)

secure-eq : (now : ℕ) (e : Event) → secure now e ≡ let_through (is_sound now e)
unfolding secure
secure-eq now (message text) = refl
secure-eq now (callback none date) = refl
secure-eq now (callback (some t) date) =
    elim (Bool-cases (is_replay_protected t && is_outdated now date)) [
      | inl h ↦ rw h refl
      | inr h ↦ elim (Bool-cases (check_suspicious_patterns t)) [
        | inl k ↦ rw (h, k) refl
        | inr k ↦ rw (h, k) refl
      ]
    ]

-- The database does not list the sender as blocked, the sender is no bot, the role that the caches or the
-- database give has some permission of an administrator where that is needed, and the event is sound.
abbrev pub may_pass : Moment → Event → Sender → Authentication → Bool
may_pass w e u m =
    not w.is_user_blocked
    && not u.is_bot
    && (not (m.maintenance_mode || is_admin_action e) || has_any_admin_perm (seen_role w u.id m))
    && is_sound w.now e

then_secure-eq :
    (now : ℕ) (e : Event) (r : Verdict × Authentication) (b : Bool)
    → r.0 ≡ let_through b
    → (then_secure now e r).0 ≡ let_through (b && is_sound now e)
unfolding then_secure
then_secure-eq now e (passed, m) true h = secure-eq now e
then_secure-eq now e (passed, m) false h = absurd (cc)
then_secure-eq now e (dropped, m) true h = absurd (cc)
then_secure-eq now e (dropped, m) false h = refl

-- The gates of authentication and of security, in a row, let an event of a user through exactly when
-- the database does not have the user blocked, the sender is no bot, the event is no callback that is
-- outdated or suspicious, and, if the bot is in maintenance or the action is one of the administration,
-- the role that `get_user_role_cached` gives, which may be a cached one, has a permission of an
-- administrator. What the gate remembers of blocked users does not matter. The other middlewares of the
-- chain, such as the limits of rates, are not part of this.
pub admit-may_pass :
    (w : Moment) (e : Event) (u : Sender) (m : Authentication)
    → (admit w e (some u) m).0 ≡ let_through (may_pass w e u m)
unfolding admit authenticate
admit-may_pass w e u m = go w.is_user_blocked u.is_bot
  where
    blocked : Authentication
    blocked = record m { blocked_users = add_user u.id m.blocked_users }

    unblocked : Authentication
    unblocked = record m { blocked_users = discard u.id m.blocked_users }

    go :
        (x y : Bool)
        → (then_secure w.now e (
            if x
            then (dropped, blocked)
            else if y
            then (dropped, unblocked)
            else maintenance_gate w e u unblocked)).0
          ≡ let_through (
              not x
              && not y
              && (not (m.maintenance_mode || is_admin_action e)
                  || has_any_admin_perm (seen_role w u.id m))
              && is_sound w.now e)
    go true y = then_secure-eq w.now e (dropped, blocked) false refl
    go false true = then_secure-eq w.now e (dropped, unblocked) false refl
    go false false = then_secure-eq w.now e (maintenance_gate w e u unblocked) _ (
        maintenance_gate-eq w e u unblocked
        ∙ ap
            (λ r.
              let_through (not (m.maintenance_mode || is_admin_action e) || has_any_admin_perm r))
            (seen_role-blocked w u.id (discard u.id m.blocked_users) m))
