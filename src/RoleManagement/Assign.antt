-- ===== src/RoleManagement/Assign.antt =====
-- `assign_role_confirm` of role_management.py: a role is given to a user.
use telegramshop_zijjn.Prelude.{
  ℕ, ◌≡◌, ◌≢◌, refl, sym, subst, ap, ◌∙◌, arith, if◌then◌else◌, Bool, true, false, not, Option,
  none, some, Text, text_eq, text_eq_refl, codes, first, option_map, Bool-cases, Option-cases, inl,
  inr,
}
use telegramshop_zijjn.Prelude.Rows.{first-update, first-holds}
use telegramshop_zijjn.Models.{User, Role, AuditEntry}
use telegramshop_zijjn.Models.Permission.{is_subset, granted}
use telegramshop_zijjn.Models.Permission.Bits.{Within, is_subset-Within, has_bit-zero}
use telegramshop_zijjn.Store.{Store, log_audit}
use telegramshop_zijjn.Transactions.Accounts.{has_telegram_id, find_user}
use telegramshop_zijjn.Roles.{has_role_id, set_role, with_role, check_role, permissions_of, role_of}
use telegramshop_zijjn.RoleManagement.{admins_manage, role_within, entry}
use telegramshop_zijjn.RoleManagement.Payload.{parse_assign}

-- What Telegram does in the handler: whether it knows the user, whether the notice gets through, and
-- whether it knows the caller. An unknown chat raises, and ends the handler.
pub record Chat : Type 0 where
  pub target_known : Bool
  pub delivered : Bool
  pub caller_known : Bool

pub data AssignReply : Type 0 where
  unhandled denied user_missing role_missing owner_kept assigned : AssignReply

-- `check_role_name_by_id`, which raises on a missing row.
unfoldable pub role_name_of : User → Store → Option Text
role_name_of u db = elim u.role_id [
  | none ↦ none
  | some i ↦ option_map (λ r. r.name) (first (has_role_id i) db.roles)
]

abbrev pub notify_failure : ℕ → AuditEntry
notify_failure target_id = record {
  action = codes "assign_role_notify_fail";
  user_id = some target_id;
  resource_id = none;
}

-- The messages and the audit entries after the role is set.
pub report : ℕ → ℕ → Chat → Store → Store
report caller_id target_id chat db =
    let noticed = if chat.delivered then db else log_audit (notify_failure target_id) db in
    if not chat.target_known
    then db
    else if chat.caller_known
    then log_audit (entry (codes "assign_role") caller_id target_id) noticed
    else noticed

pub give_role : ℕ → ℕ → ℕ → Chat → Option Text → Store → AssignReply × Store
give_role caller_id role_id target_id chat none db = (role_missing, db)
give_role caller_id role_id target_id chat (some name) db =
    if text_eq name (codes "OWNER")
    then (owner_kept, db)
    else (assigned, report caller_id target_id chat (set_role target_id role_id db))

pub assign_to : ℕ → ℕ → ℕ → Chat → Option User → Store → AssignReply × Store
assign_to caller_id role_id target_id chat none db = (user_missing, db)
assign_to caller_id role_id target_id chat (some u) db =
    give_role caller_id role_id target_id chat (role_name_of u db) db

pub assign_found : ℕ → ℕ → ℕ → Chat → Option Role → (ℕ → Option User) → Store → AssignReply × Store
assign_found caller_id role_id target_id chat none cached db = (denied, db)
assign_found caller_id role_id target_id chat (some role) cached db =
    assign_to caller_id role_id target_id chat (cached target_id) db

pub assign_parsed : ℕ → ℕ → Chat → Option (ℕ × ℕ) → (ℕ → Option User) → Store → AssignReply × Store
assign_parsed caller_id caller chat none cached db = (unhandled, db)
assign_parsed caller_id caller chat (some (role_id, target_id)) cached db =
    assign_found caller_id role_id target_id chat (role_within caller role_id db) cached db

-- `cached` is what `check_user_cached` answers.
unfoldable pub assign_role_confirm :
    ℕ → ℕ → Chat → Text → (ℕ → Option User) → Store → AssignReply × Store
assign_role_confirm caller_id caller chat payload cached db =
    if granted caller admins_manage
    then assign_parsed caller_id caller chat (parse_assign payload) cached db
    else (unhandled, db)

-- The target's permissions are the caller's at most, the target was not seen as the owner, and no
-- other user and no role is touched.
pub record Assigned (caller target_id : ℕ) (seen : Option User) (before after : Store)
    : Type 0 where
  pub allowed : granted caller admins_manage ≡ true
  pub within : Within (check_role target_id after) caller
  pub not_owner : (u : User) → seen ≡ some u → role_name_of u before ≢ some (codes "OWNER")
  pub others : (k : ℕ) → k ≢ target_id → find_user k after ≡ find_user k before
  pub roles : after.roles ≡ before.roles

abbrev pub AssignOutcome : ℕ → Text → (ℕ → Option User) → Store → AssignReply → Store → Type 0
AssignOutcome caller payload cached before assigned after =
    (role_id : ℕ) × (target_id : ℕ) × (parse_assign payload ≡ some (role_id, target_id))
    × Assigned caller target_id (cached target_id) before after
AssignOutcome caller payload cached before unhandled after = after ≡ before
AssignOutcome caller payload cached before denied after = after ≡ before
AssignOutcome caller payload cached before user_missing after = after ≡ before
AssignOutcome caller payload cached before role_missing after = after ≡ before
AssignOutcome caller payload cached before owner_kept after = after ≡ before

report-roles :
    (caller_id target_id : ℕ) (chat : Chat) (db : Store)
    → ((report caller_id target_id chat db).users ≡ db.users)
      × ((report caller_id target_id chat db).roles ≡ db.roles)
unfolding report log_audit
report-roles caller_id target_id chat db = ground arith

check_role-eq :
    (i : ℕ) (a b : Store) → a.users ≡ b.users → a.roles ≡ b.roles → check_role i a ≡ check_role i b
unfolding check_role
check_role-eq i a b e f = rw (e, f) refl

-- A user who is found changes role, and no other user does.
set_role-others :
    (role_id i k : ℕ) (db : Store) → k ≢ i → find_user k (set_role i role_id db) ≡ find_user k db
unfolding set_role
set_role-others role_id i k db n =
    first-update (has_telegram_id i) (has_telegram_id k) (with_role role_id) (λ a. refl) db.users
    ∙ same (find_user k db) (λ u h. first-holds (has_telegram_id k) db.users {a = u} h)
  where
    same :
        (o : Option User)
        → ((u : User) → o ≡ some u → has_telegram_id k u ≡ true)
        → option_map (λ a. if has_telegram_id i a then with_role role_id a else a) o ≡ o
    same none h = refl
    same (some u) h = let z = h u refl in ground arith

set_role_self :
    (role_id i : ℕ) (r : Role) (caller : ℕ) (db : Store)
    → first (has_role_id role_id) db.roles ≡ some r
    → Within r.permissions caller
    → Within (check_role i (set_role i role_id db)) caller
unfolding set_role check_role
set_role_self role_id i r caller db f w =
    subst (λ o. Within (permissions_of (role_of o db.roles)) caller)
      (sym (
        first-update (has_telegram_id i) (has_telegram_id i) (with_role role_id) (λ a. refl)
          db.users))
      (updated (find_user i db) (λ u h. first-holds (has_telegram_id i) db.users {a = u} h))
  where
    updated :
        (o : Option User)
        → ((u : User) → o ≡ some u → has_telegram_id i u ≡ true)
        → Within
            (permissions_of (
              role_of
                (option_map (λ a. if has_telegram_id i a then with_role role_id a else a) o)
                db.roles))
            caller
    updated none h = λ j o. absurd (has_bit-zero j 0 (omega arith) o)
    updated (some u) h = rw (h u refl, f) w

-- The role that a handler found.
role_within-found :
    (caller i : ℕ) (db : Store) {r : Role}
    → role_within caller i db ≡ some r
    → (first (has_role_id i) db.roles ≡ some r) × Within r.permissions caller
unfolding role_within
role_within-found caller i db {r} h = elim (Option-cases (first (has_role_id i) db.roles)) [
  | inl e ↦ absurd (ground arith)
  | inr (a, e) ↦
      let s : is_subset a.permissions caller ≡ true = ground arith in
      let q : a ≡ r = ground arith in
      (
        e ∙ ap some q,
        subst (λ x. Within x.permissions caller) q ((is_subset-Within a.permissions caller).0 s),
      )
]

set_role-roles : (i role_id : ℕ) (db : Store) → (set_role i role_id db).roles ≡ db.roles
unfolding set_role
set_role-roles i role_id db = refl

give-Assigned :
    (caller_id caller i j : ℕ) (chat : Chat) (db : Store) {r : Role} {u : User} {name : Text}
    → granted caller admins_manage ≡ true
    → role_within caller i db ≡ some r
    → role_name_of u db ≡ some name
    → text_eq name (codes "OWNER") ≡ false
    → {seen : Option User} → seen ≡ some u
    → Assigned caller j seen db (report caller_id j chat (set_role j i db))
give-Assigned caller_id caller i j chat db {r} {u} {name} g f n e {seen} c =
    let given = set_role j i db in
    let after = report caller_id j chat given in
    let same = report-roles caller_id j chat given in
    let role = role_within-found caller i db f in
    record {
      allowed = g;
      within =
          subst (λ x. Within x caller) (sym (check_role-eq j after given same.0 same.1))
            (set_role_self i j r caller db role.0 role.1);
      not_owner = not_owner;
      others = λ k d. ap (first (has_telegram_id k)) same.0 ∙ set_role-others i j k db d;
      roles = same.1 ∙ set_role-roles j i db;
    }
  where
    not_owner : (v : User) → seen ≡ some v → role_name_of v db ≢ some (codes "OWNER")
    not_owner v q o =
        let k : u ≡ v = cc in
        let l : name ≡ codes "OWNER" = cc in
        let m = text_eq_refl (codes "OWNER") in
        let z = subst (λ t. text_eq t (codes "OWNER") ≡ false) l e in absurd (cc)

-- The role of a payload is given only by a caller who may manage administrators, to a user who was not
-- seen to be the owner: that user then has permissions of the caller only, no other user changes, and
-- no role does. In every other case the handler leaves the database as it is.
pub assign_role_confirm-AssignOutcome :
    (caller_id caller : ℕ) (chat : Chat) (payload : Text) (cached : ℕ → Option User) (db : Store)
    → AssignOutcome caller payload cached db
        (assign_role_confirm caller_id caller chat payload cached db).0
        (assign_role_confirm caller_id caller chat payload cached db).1
unfolding assign_role_confirm assign_parsed assign_found assign_to give_role
assign_role_confirm-AssignOutcome caller_id caller chat payload cached db =
    elim (Bool-cases (granted caller admins_manage)) [
      | inl e ↦ rw e (parsed e (parse_assign payload) refl)
      | inr e ↦ rw e refl
    ]
  where
    give :
        granted caller admins_manage ≡ true
        → (i j : ℕ) → parse_assign payload ≡ some (i, j)
        → (r : Role) → role_within caller i db ≡ some r
        → (u : User) → cached j ≡ some u
        → (o : Option Text) → role_name_of u db ≡ o
        → AssignOutcome caller payload cached db
            (give_role caller_id i j chat o db).0
            (give_role caller_id i j chat o db).1
    give g i j p r f u c none n = refl
    give g i j p r f u c (some name) n = elim (Bool-cases (text_eq name (codes "OWNER"))) [
      | inl e ↦ rw e refl
      | inr e ↦ rw e (i, j, p, give-Assigned caller_id caller i j chat db g f n e c)
    ]

    target :
        granted caller admins_manage ≡ true
        → (i j : ℕ) → parse_assign payload ≡ some (i, j)
        → (r : Role) → role_within caller i db ≡ some r
        → (o : Option User) → cached j ≡ o
        → AssignOutcome caller payload cached db
            (assign_to caller_id i j chat o db).0
            (assign_to caller_id i j chat o db).1
    target g i j p r f none c = refl
    target g i j p r f (some u) c = give g i j p r f u c (role_name_of u db) refl

    found :
        granted caller admins_manage ≡ true
        → (i j : ℕ) → parse_assign payload ≡ some (i, j)
        → (o : Option Role) → role_within caller i db ≡ o
        → AssignOutcome caller payload cached db
            (assign_found caller_id i j chat o cached db).0
            (assign_found caller_id i j chat o cached db).1
    found g i j p none f = refl
    found g i j p (some r) f = target g i j p r f (cached j) refl

    parsed :
        granted caller admins_manage ≡ true
        → (o : Option (ℕ × ℕ)) → parse_assign payload ≡ o
        → AssignOutcome caller payload cached db
            (assign_parsed caller_id caller chat o cached db).0
            (assign_parsed caller_id caller chat o cached db).1
    parsed g none p = refl
    parsed g (some (i, j)) p = found g i j p (role_within caller i db) refl
