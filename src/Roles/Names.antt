-- ===== src/Roles/Names.antt =====
-- Role names stay unique, and which roles an administrator is offered.
use telegramshop_zijjn.Prelude.{
  subst, sym, ◌⊎◌, ℕ, ◌==◌, ◌≤◌, ◌≡◌, refl, arith, Bool, true, false, not, ◌&&◌, some, List, [],
  ◌∷◌, Text, text_eq, text_eq→eq, first, exists, count, All, select_where, Bool-cases, Option-cases,
  inl, inr,
}
use telegramshop_zijjn.Prelude.Counts.{count-append, count-update, count-update_one}
use telegramshop_zijjn.Prelude.Rows.{first-holds}
use telegramshop_zijjn.Models.{Role}
use telegramshop_zijjn.Models.Permission.{is_subset}
use telegramshop_zijjn.Models.Permission.Bits.{Within, is_subset-Within}
use telegramshop_zijjn.Store.{Store}
use telegramshop_zijjn.Roles.{
  has_name, has_role_id, create_role, renamed, change_role, update_role, by_permissions,
  get_roles_with_max_perms,
}

-- No two roles share a name or an id.
pub record IsRoleTable (db : Store) : Type 0 where
  pub names : (name : Text) → count (has_name name) db.roles ≤ 1
  pub ids : (i : ℕ) → count (has_role_id i) db.roles ≤ 1

exists-count :
    (name : Text) (rs : List Role)
    → exists (has_name name) rs ≡ false
    → count (has_name name) rs ≡ 0
exists-count name [] h = refl
exists-count name (r ∷ rs) h = ground (arith, exists-count name rs)

-- Creating a role, with an id that is new, keeps the names and the ids of the roles apart.
pub create_role-IsRoleTable :
    (name : Text) (permissions : ℕ) (db : Store)
    → count (has_role_id db.next_id) db.roles ≡ 0
    → IsRoleTable db
    → IsRoleTable (create_role name permissions db).1
unfolding create_role
create_role-IsRoleTable name permissions db f t =
    elim (Bool-cases (exists (has_name name) db.roles)) [
      | inl e ↦ rw e t
      | inr e ↦
          let row : Role = record {
            id = db.next_id;
            name = name;
            default = false;
            permissions = permissions;
          } in
          rw e (record {
            names = λ m.
                ground
                  (arith, count-append (has_name m) db.roles row, t.names m, name_free name m e);
            ids =
                λ i. ground (arith, count-append (has_role_id i) db.roles row, t.ids i, id_free i);
          })
    ]
  where
    name_free :
        (name m : Text)
        → exists (has_name name) db.roles ≡ false
        → text_eq name m ≡ true
        → count (has_name m) db.roles ≡ 0
    name_free name m e h =
        let q : name ≡ m = text_eq→eq name m h in
        exists-count m db.roles (subst (λ k. exists (has_name k) db.roles ≡ false) q e)

    id_free : (i : ℕ) → db.next_id == i ≡ true → count (has_role_id i) db.roles ≡ 0
    id_free i h =
        let q : db.next_id ≡ i = ground arith in subst (λ k. count (has_role_id k) db.roles ≡ 0) q f

change_role-IsRoleTable :
    (role : Role) (name : Text) (permissions : ℕ) (db : Store)
    → first (has_role_id role.id) db.roles ≡ some role
    → IsRoleTable db
    → IsRoleTable (change_role role name permissions db).1
unfolding change_role
change_role-IsRoleTable role name permissions db f t =
    elim (Bool-cases (not (text_eq role.name name) && exists (has_name name) db.roles)) [
      | inl e ↦ rw e t
      | inr e ↦ rw e (record {
        names = λ m. ground (
          arith,
          count-update_one (has_name m) (has_role_id role.id) (renamed name permissions) db.roles
              (t.ids role.id) f,
          t.names m,
          taken m e,
        );
        ids = λ i. ground (
          arith,
          count-update (has_role_id i) (has_role_id role.id) (renamed name permissions) db.roles
              (λ a. refl),
          t.ids i,
        );
      })
    ]
  where
    -- The new name was the role's own, or free.
    taken :
        (m : Text)
        → not (text_eq role.name name) && exists (has_name name) db.roles ≡ false
        → text_eq name m ≡ true
        → (text_eq role.name m ≡ true) ⊎ (count (has_name m) db.roles ≡ 0)
    taken m e h = elim (Bool-cases (text_eq role.name name)) [
      | inl own ↦ inl (subst (λ k. text_eq role.name k ≡ true) (text_eq→eq name m h) own)
      | inr new ↦ inr (
          exists-count m db.roles (
            subst (λ k. exists (has_name k) db.roles ≡ false) (text_eq→eq name m h) (ground arith)))
    ]

-- Changing a role keeps the names and the ids of the roles apart: another role's name is refused.
pub update_role-IsRoleTable :
    (i : ℕ) (name : Text) (permissions : ℕ) (db : Store)
    → IsRoleTable db
    → IsRoleTable (update_role i name permissions db).1
unfolding update_role
update_role-IsRoleTable i name permissions db t =
    elim (Option-cases (first (has_role_id i) db.roles)) [
      | inl e ↦ rw (e, update_role) t
      | inr (r, e) ↦
          let q : r.id ≡ i = id_of r (first-holds (has_role_id i) db.roles e) in
          rw (e, update_role)
            (change_role-IsRoleTable r name permissions db
              (subst (λ k. first (has_role_id k) db.roles ≡ some r) (sym q) e) t)
    ]
  where
    id_of : (r : Role) → has_role_id i r ≡ true → r.id ≡ i
    id_of r h = ground arith

All-select : (p : Role → Bool) (rs : List Role) → All (λ r. p r ≡ true) (select_where p rs)
All-select p [] = tt
All-select p (r ∷ rs) = ground (arith, All-select p rs)

-- The roles that an administrator is offered hold none but the administrator's own permissions.
pub get_roles_with_max_perms-Within :
    (perms : ℕ) (db : Store)
    → All (λ r. Within r.permissions perms) (get_roles_with_max_perms perms db)
unfolding get_roles_with_max_perms
get_roles_with_max_perms-Within perms db = within _ (All-select _ (by_permissions db.roles))
  where
    within :
        (rs : List Role)
        → All (λ r. is_subset r.permissions perms ≡ true) rs
        → All (λ r. Within r.permissions perms) rs
    within [] h = tt
    within (r ∷ rs) h = ((is_subset-Within r.permissions perms).0 h.0, within rs h.1)
