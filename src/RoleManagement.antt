-- ===== src/RoleManagement.antt =====
-- The dialogue of bot/handlers/admin/role_management.py: roles are created, edited, deleted and given to
-- users. What `check_role_cached` and `check_user_cached` answer is an argument of each update; `int` of
-- a payload that is no number ends a handler with an alert, and so stands for no update here.
pub mod Masks
pub mod Assign
pub mod Payload
pub mod Confined
pub mod Sessions
use telegramshop_zijjn.Prelude.{
  ℕ, suc, ◌==◌, ltb, leb, if◌then◌else◌, Bool, true, false, not, ◌&&◌, ◌||◌, Option, none, some,
  List, [], ◌∷◌, ℤ, pos, negsuc, Text, text_eq, codes, decimal, upper, length, first, strip,
}
use telegramshop_zijjn.Models.{Role, AuditEntry}
use telegramshop_zijjn.Models.Permission.{is_subset, granted}
use telegramshop_zijjn.Store.{Store, log_audit}
use telegramshop_zijjn.Roles.{RoleError, has_role_id, create_role, update_role, delete_role}
use telegramshop_zijjn.RoleManagement.Masks.{covers, toggle}

-- `Permission.ADMINS_MANAGE`
abbrev pub admins_manage : ℕ
admins_manage = 32

-- `RoleMgmtFSM`, and no state.
pub data RoleState : Type 0 where
  idle waiting_role_name waiting_role_perms editing_role_name editing_role_perms : RoleState

pub data Mode : Type 0 where
  create edit : Mode

-- The state and the data of the dialogue; a key that `get_data` lacks is none, or what the source gives
-- as its default.
pub record Dialogue : Type 0 where
  pub state : RoleState
  pub role_id : Option ℕ
  pub role_name : Text
  pub role_perms : ℕ
  pub caller_perms : ℕ
  pub mode : Option Mode

-- `state.clear()`
abbrev pub cleared : Dialogue
cleared = record {
  state = idle;
  role_id = none;
  role_name = [];
  role_perms = 0;
  caller_perms = 0;
  mode = none;
}

-- The updates that the router of this file handles.
pub data Update : Type 0 where
  role_mgmt : Update
  role_new : Update
  message : Text → Update
  role_edit : ℕ → Update
  toggle_perm : ℤ → Update
  perms_done : Update
  role_delete : ℕ → Update

pub record Session : Type 0 where
  pub dialogue : Dialogue
  pub store : Store

abbrev pub entry : Text → ℕ → ℕ → AuditEntry
entry action caller_id role_id = record {
  action = action;
  user_id = some caller_id;
  resource_id = some (decimal role_id);
}

-- `not name or len(name) > 64`
abbrev pub is_bad_name : Text → Bool
is_bad_name name = leb (length name) 0 || ltb 64 (length name)

-- `get_role_by_id`, and the check that each handler on a role begins with.
pub role_within : ℕ → ℕ → Store → Option Role
role_within caller role_id db = elim (first (has_role_id role_id) db.roles) [
  | none ↦ none
  | some role ↦ if is_subset role.permissions caller then some role else none
]

pub role_create_name : ℕ → Text → Dialogue → Dialogue
role_create_name caller text d =
    let name = upper (strip text) in
    if is_bad_name name then d else record d {
      state = waiting_role_perms;
      role_name = name;
      role_perms = 0;
      caller_perms = caller;
      mode = some create;
    }

pub start_edit : ℕ → ℕ → Option Role → Dialogue → Dialogue
start_edit caller role_id none d = d
start_edit caller role_id (some role) d = record d {
  state = editing_role_name;
  role_id = some role_id;
  role_name = role.name;
  role_perms = role.permissions;
  caller_perms = caller;
  mode = some edit;
}

pub role_edit_start : ℕ → ℕ → Store → Dialogue → Dialogue
role_edit_start caller role_id db d = start_edit caller role_id (role_within caller role_id db) d

pub role_edit_name : Text → Dialogue → Dialogue
role_edit_name text d =
    let name = strip text in
    if text_eq name (codes "/skip")
    then record d { state = editing_role_perms }
    else if is_bad_name (upper name)
    then d
    else record d { state = editing_role_perms; role_name = upper name }

-- The handler of a text message, by the state.
pub on_message : ℕ → Text → RoleState → Dialogue → Dialogue
on_message caller text waiting_role_name d = role_create_name caller text d
on_message caller text editing_role_name d = role_edit_name text d
on_message caller text idle d = d
on_message caller text waiting_role_perms d = d
on_message caller text editing_role_perms d = d

abbrev pub chooses_perms : RoleState → Bool
chooses_perms waiting_role_perms = true
chooses_perms editing_role_perms = true
chooses_perms idle = false
chooses_perms waiting_role_name = false
chooses_perms editing_role_name = false

pub toggle_bit : ℤ → Dialogue → Dialogue
toggle_bit bit d =
    if covers bit d.caller_perms then record d { role_perms = toggle d.role_perms bit } else d

pub logged_create : ℕ → Option ℕ × Store → Store
logged_create caller_id (none, db) = db
logged_create caller_id (some role_id, db) =
    log_audit (entry (codes "create_role") caller_id role_id) db

pub logged_change : Text → ℕ → ℕ → Option RoleError × Store → Store
logged_change action caller_id role_id (none, db) = log_audit (entry action caller_id role_id) db
logged_change action caller_id role_id (some e, db) = db

-- What `_perms_done` writes once the dialogue is cleared.
pub write_role : ℕ → Option Mode → Option ℕ → Text → ℕ → Store → Store
write_role caller_id none role_id name perms db = db
write_role caller_id (some create) role_id name perms db =
    logged_create caller_id (create_role name perms db)
write_role caller_id (some edit) none name perms db = db
write_role caller_id (some edit) (some role_id) name perms db =
    logged_change (codes "update_role") caller_id role_id (update_role role_id name perms db)

pub finish_perms : ℕ → Session → Session
finish_perms caller_id s =
    let d = s.dialogue in
    if is_subset d.role_perms d.caller_perms
    then record {
      dialogue = cleared;
      store = write_role caller_id d.mode d.role_id d.role_name d.role_perms s.store;
    }
    else s

pub delete_found : ℕ → ℕ → Option Role → Store → Store
delete_found caller_id role_id none db = db
delete_found caller_id role_id (some role) db =
    logged_change (codes "delete_role") caller_id role_id (delete_role role_id db)

abbrev pub with_dialogue : Session → Dialogue → Session
with_dialogue s d = record s { dialogue = d }

-- One update of the user `caller_id`, whose permissions are `caller`. The callbacks that start or list
-- need ADMINS_MANAGE; those that toggle and confirm need the state only.
pub handle : ℕ → ℕ → Update → Session → Session
handle caller_id caller role_mgmt s =
    if granted caller admins_manage then with_dialogue s cleared else s
handle caller_id caller role_new s =
    if granted caller admins_manage
    then with_dialogue s (record (s.dialogue) { state = waiting_role_name })
    else s
handle caller_id caller (message text) s =
    with_dialogue s (on_message caller text s.dialogue.state s.dialogue)
handle caller_id caller (role_edit role_id) s =
    if granted caller admins_manage
    then with_dialogue s (role_edit_start caller role_id s.store s.dialogue)
    else s
handle caller_id caller (toggle_perm bit) s =
    if chooses_perms s.dialogue.state then with_dialogue s (toggle_bit bit s.dialogue) else s
handle caller_id caller perms_done s =
    if chooses_perms s.dialogue.state then finish_perms caller_id s else s
handle caller_id caller (role_delete role_id) s =
    if granted caller admins_manage
    then record s {
      store = delete_found caller_id role_id (role_within caller role_id s.store) s.store;
    }
    else s

-- Several updates, each with the permissions that the user has by then.
pub handle_all : ℕ → List (ℕ × Update) → Session → Session
handle_all caller_id [] s = s
handle_all caller_id ((caller, u) ∷ us) s = handle_all caller_id us (handle caller_id caller u s)
