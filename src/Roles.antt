-- ===== src/Roles.antt =====
-- Roles: `create_role` (bot/database/methods/create.py), `set_role` and `update_role` (update.py),
-- `delete_role` (delete.py), `check_role` and `get_roles_with_max_perms` (read.py).
pub mod Names
pub mod Deletion
pub mod Changes
use telegramshop_zijjn.Prelude.{
  ℕ, suc, ◌+◌, ◌==◌, ltb, leb, if◌then◌else◌, Bool, true, false, not, ◌&&◌, ◌||◌, Option, none,
  some, List, [], ◌∷◌, ◌++◌, Text, text_eq, codes, first, exists, count, select_where, update_where,
  delete_where,
}
use telegramshop_zijjn.Models.{User, Role}
use telegramshop_zijjn.Models.Permission.{is_subset}
use telegramshop_zijjn.Store.{Store}
use telegramshop_zijjn.Transactions.Accounts.{has_telegram_id, find_user}

abbrev pub has_name : Text → Role → Bool
has_name name r = text_eq r.name name

abbrev pub has_role_id : ℕ → Role → Bool
has_role_id i r = r.id == i

abbrev pub has_role : ℕ → User → Bool
has_role i u = elim u.role_id [ none ↦ false | some j ↦ j == i ]

-- The new id, or None for a name that is taken.
unfoldable pub create_role : Text → ℕ → Store → Option ℕ × Store
create_role name permissions db = if exists (has_name name) db.roles then (none, db) else (
  some db.next_id,
  record db {
    roles =
        db.roles
        ++ record { id = db.next_id; name = name; default = false; permissions = permissions } ∷ [];
    next_id = suc db.next_id;
  },
)

-- The error messages of the role methods; `has_users n` carries the number that the message shows.
pub data RoleError : Type 0 where
  role_not_found name_exists default_role built_in : RoleError
  has_users : ℕ → RoleError

abbrev pub renamed : Text → ℕ → Role → Role
renamed name permissions r = record r { name = name; permissions = permissions }

-- `None` for success.
pub change_role : Role → Text → ℕ → Store → Option RoleError × Store
change_role role name permissions db =
    if not (text_eq role.name name) && exists (has_name name) db.roles
    then (some name_exists, db)
    else (
      none,
      record db { roles = update_where (has_role_id role.id) (renamed name permissions) db.roles },
    )

unfoldable pub update_role : ℕ → Text → ℕ → Store → Option RoleError × Store
update_role role_id name permissions db = elim (first (has_role_id role_id) db.roles) [
  | none ↦ (some role_not_found, db)
  | some role ↦ change_role role name permissions db
]

abbrev pub is_built_in : Role → Bool
is_built_in r =
    has_name (codes "USER") r || has_name (codes "ADMIN") r || has_name (codes "OWNER") r

unfoldable pub drop_role : Role → ℕ → Store → Option RoleError × Store
drop_role role role_id db =
    let users = count (has_role role_id) db.users in
    if role.default
    then (some default_role, db)
    else if is_built_in role
    then (some built_in, db)
    else if ltb 0 users
    then (some (has_users users), db)
    else (none, record db { roles = delete_where (has_role_id role.id) db.roles })

unfoldable pub delete_role : ℕ → Store → Option RoleError × Store
delete_role role_id db = elim (first (has_role_id role_id) db.roles) [
  | none ↦ (some role_not_found, db)
  | some role ↦ drop_role role role_id db
]

abbrev pub with_role : ℕ → User → User
with_role i u = record u { role_id = some i }

unfoldable pub set_role : ℕ → ℕ → Store → Store
set_role telegram_id role db = record db {
  users = update_where (has_telegram_id telegram_id) (with_role role) db.users;
}

abbrev pub permissions_of : Option Role → ℕ
permissions_of none = 0
permissions_of (some r) = r.permissions

abbrev pub role_of : Option User → List Role → Option Role
role_of none roles = none
role_of (some u) roles = elim u.role_id [ none ↦ none | some i ↦ first (has_role_id i) roles ]

-- The mask of the user's role, 0 if there is none.
unfoldable pub check_role : ℕ → Store → ℕ
check_role telegram_id db = permissions_of (role_of (find_user telegram_id db) db.roles)

abbrev pub insert_by_permissions : Role → List Role → List Role
insert_by_permissions r [] = r ∷ []
insert_by_permissions r (s ∷ ss) =
    if leb s.permissions r.permissions then s ∷ insert_by_permissions r ss else r ∷ s ∷ ss

pub by_permissions : List Role → List Role
by_permissions [] = []
by_permissions (r ∷ rs) = insert_by_permissions r (by_permissions rs)

unfoldable pub get_roles_with_max_perms : ℕ → Store → List Role
get_roles_with_max_perms max_perms db =
    select_where (λ r. is_subset r.permissions max_perms) (by_permissions db.roles)
