-- ===== src/Roles/Changes.antt =====
-- What an operation on roles leaves: the same database, or the same with one change.
use telegramshop_zijjn.Prelude.{
  ℕ, suc, ◌≡◌, refl, ap, arith, false, not, ◌&&◌, some, [], ◌∷◌, ◌++◌, Text, text_eq, first, exists,
  count, update_where, delete_where, ltb, Bool-cases, Option-cases, ◌⊎◌, inl, inr,
}
use telegramshop_zijjn.Prelude.Rows.{first-holds}
use telegramshop_zijjn.Models.{Role}
use telegramshop_zijjn.Store.{Store}
use telegramshop_zijjn.Roles.{
  has_name, has_role_id, has_role, create_role, renamed, change_role, update_role, is_built_in,
  drop_role, delete_role,
}

abbrev pub created : Text → ℕ → Store → Store
created name perms db = record db {
  roles =
      db.roles
      ++ record { id = db.next_id; name = name; default = false; permissions = perms } ∷ [];
  next_id = suc db.next_id;
}

abbrev pub changed : ℕ → Text → ℕ → Store → Store
changed i name perms db = record db {
  roles = update_where (has_role_id i) (renamed name perms) db.roles;
}

abbrev pub dropped : ℕ → Store → Store
dropped i db = record db { roles = delete_where (has_role_id i) db.roles }

pub create_role-cases :
    (name : Text) (perms : ℕ) (db : Store)
    → ((create_role name perms db).1 ≡ db) ⊎ ((create_role name perms db).1 ≡ created name perms db)
unfolding create_role
create_role-cases name perms db = elim (Bool-cases (exists (has_name name) db.roles)) [
  | inl e ↦ inl (rw e refl)
  | inr e ↦ inr (rw e refl)
]

id_of : (i : ℕ) (db : Store) (r : Role) → first (has_role_id i) db.roles ≡ some r → r.id ≡ i
id_of i db r f = let h = first-holds (has_role_id i) db.roles {a = r} f in ground arith

pub update_role-cases :
    (i : ℕ) (name : Text) (perms : ℕ) (db : Store)
    → ((update_role i name perms db).1 ≡ db)
      ⊎ ((update_role i name perms db).1 ≡ changed i name perms db)
unfolding update_role change_role
update_role-cases i name perms db = elim (Option-cases (first (has_role_id i) db.roles)) [
  | inl e ↦ inl (rw (e, update_role) refl)
  | inr (r, e) ↦ rw (e, update_role) (go r (id_of i db r e))
]
  where
    go :
        (r : Role)
        → r.id ≡ i
        → ((change_role r name perms db).1 ≡ db)
          ⊎ ((change_role r name perms db).1 ≡ changed i name perms db)
    go r e = elim (Bool-cases (not (text_eq r.name name) && exists (has_name name) db.roles)) [
      | inl c ↦ inl (rw c refl)
      | inr c ↦ inr (rw c (ap (λ k. changed k name perms db) e))
    ]

pub delete_role-cases :
    (i : ℕ) (db : Store) → ((delete_role i db).1 ≡ db) ⊎ ((delete_role i db).1 ≡ dropped i db)
unfolding delete_role drop_role
delete_role-cases i db = elim (Option-cases (first (has_role_id i) db.roles)) [
  | inl e ↦ inl (rw (e, delete_role) refl)
  | inr (r, e) ↦ rw (e, delete_role) (go r (id_of i db r e))
]
  where
    go : (r : Role) → r.id ≡ i → ((drop_role r i db).1 ≡ db) ⊎ ((drop_role r i db).1 ≡ dropped i db)
    go r e = elim (Bool-cases r.default) [
      | inl c ↦ inl (rw c refl)
      | inr c ↦ elim (Bool-cases (is_built_in r)) [
        | inl d ↦ inl (rw (c, d) refl)
        | inr d ↦ elim (Bool-cases (ltb 0 (count (has_role i) db.users))) [
          | inl f ↦ inl (rw (c, d, f) refl)
          | inr f ↦ inr (rw (c, d, f) (ap (λ k. dropped k db) e))
        ]
      ]
    ]
