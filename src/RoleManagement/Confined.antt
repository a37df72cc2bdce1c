-- ===== src/RoleManagement/Confined.antt =====
-- What a dialogue can do to the roles.
use telegramshop_zijjn.Prelude.{
  ℕ, ◌≤◌, ◌≡◌, ◌⊎◌, refl, subst, arith, true, false, List, Text, count, In, Bool-cases, inl, inr,
}
use telegramshop_zijjn.Prelude.Counts.{count-append, count-update, count-delete}
use telegramshop_zijjn.Prelude.Members.{
  In-append, append-In, In-update, update-In, In-delete, delete-In,
}
use telegramshop_zijjn.Models.{Role}
use telegramshop_zijjn.Models.Permission.Bits.{Within}
use telegramshop_zijjn.Store.{Store}
use telegramshop_zijjn.Roles.{has_role_id, has_name, create_role, update_role, delete_role, renamed}
use telegramshop_zijjn.Roles.Names.{IsRoleTable, create_role-IsRoleTable, update_role-IsRoleTable}
use telegramshop_zijjn.Roles.Changes.{create_role-cases, update_role-cases, delete_role-cases}

-- The ids that are given out are below the next one, and no two roles share a name or an id.
pub record IsNumbered (db : Store) : Type 0 where
  pub table : IsRoleTable db
  pub fresh : (i : ℕ) → db.next_id ≤ i → count (has_role_id i) db.roles ≡ 0

pub create_role-IsNumbered :
    (name : Text) (perms : ℕ) (db : Store)
    → IsNumbered db
    → IsNumbered (create_role name perms db).1
create_role-IsNumbered name perms db n = record {
  table = create_role-IsRoleTable name perms db (n.fresh db.next_id (omega arith)) n.table;
  fresh = elim (create_role-cases name perms db) [
    | inl e ↦ rw e n.fresh
    | inr e ↦ rw e (λ i h. ground (arith, n.fresh i, count-append (has_role_id i) db.roles row))
  ];
}
  where
    row : Role
    row = record { id = db.next_id; name = name; default = false; permissions = perms }

pub update_role-IsNumbered :
    (i : ℕ) (name : Text) (perms : ℕ) (db : Store)
    → IsNumbered db
    → IsNumbered (update_role i name perms db).1
update_role-IsNumbered i name perms db n = record {
  table = update_role-IsRoleTable i name perms db n.table;
  fresh = elim (update_role-cases i name perms db) [
    | inl e ↦ rw e n.fresh
    | inr e ↦ rw e (λ j h. omega (
      arith,
      n.fresh j h,
      count-update (has_role_id j) (has_role_id i) (renamed name perms) db.roles (λ a. refl),
    ))
  ];
}

pub delete_role-IsNumbered : (i : ℕ) (db : Store) → IsNumbered db → IsNumbered (delete_role i db).1
delete_role-IsNumbered i db n = elim (delete_role-cases i db) [
  | inl e ↦ rw e n
  | inr e ↦ rw e (record {
    table = record {
      names =
          λ m. omega (arith, n.table.names m, count-delete (has_name m) (has_role_id i) db.roles);
      ids =
          λ j. omega (arith, n.table.ids j, count-delete (has_role_id j) (has_role_id i) db.roles);
    };
    fresh =
        λ j h. omega (arith, n.fresh j h, count-delete (has_role_id j) (has_role_id i) db.roles);
  })
]

-- No role with a permission beyond the mask is changed or deleted, and none is made.
pub record Confined (mask : ℕ) (before after : List Role) : Type 0 where
  pub kept : (r : Role) → In r before → ¬ (Within r.permissions mask) → In r after
  pub bounded : (r : Role) → In r after → In r before ⊎ Within r.permissions mask

pub Confined-refl : (mask : ℕ) (rs : List Role) → Confined mask rs rs
Confined-refl mask rs = record { kept = λ r h n. h; bounded = λ r h. inl h }

pub Confined-trans :
    (mask : ℕ) (a b c : List Role) → Confined mask a b → Confined mask b c → Confined mask a c
Confined-trans mask a b c p q = record {
  kept = λ r h n. q.kept r (p.kept r h n) n;
  bounded = λ r h. elim (q.bounded r h) [ inl k ↦ p.bounded r k | inr w ↦ inr w ];
}

-- Every role with the id is within the mask.
abbrev pub Aimed : ℕ → ℕ → List Role → Type 0
Aimed mask i rs = (r : Role) → In r rs → has_role_id i r ≡ true → Within r.permissions mask

pub create_role-Confined :
    (mask : ℕ) (name : Text) (perms : ℕ) (db : Store)
    → Within perms mask
    → Confined mask db.roles (create_role name perms db).1.roles
create_role-Confined mask name perms db w = elim (create_role-cases name perms db) [
  | inl e ↦ rw e (Confined-refl mask db.roles)
  | inr e ↦ rw e (record {
    kept = λ r h n. append-In db.roles _ r h;
    bounded = λ r h. elim (In-append db.roles _ h) [
      | inl k ↦ inl k
      | inr k ↦ inr (subst (λ x. Within x.permissions mask) k w)
    ];
  })
]

pub update_role-Confined :
    (mask i : ℕ) (name : Text) (perms : ℕ) (db : Store)
    → Within perms mask
    → Aimed mask i db.roles
    → Confined mask db.roles (update_role i name perms db).1.roles
update_role-Confined mask i name perms db w a = elim (update_role-cases i name perms db) [
  | inl e ↦ rw e (Confined-refl mask db.roles)
  | inr e ↦ rw e (record {
    kept = λ r h n. elim (Bool-cases (has_role_id i r)) [
      | inl c ↦ absurd (n (a r h c))
      | inr c ↦ update-In (has_role_id i) (renamed name perms) db.roles c h
    ];
    bounded = λ r h. elim (In-update (has_role_id i) (renamed name perms) db.roles h) [
      | inl k ↦ inl k
      | inr (b, k, q) ↦ inr (subst (λ x. Within x.permissions mask) q w)
    ];
  })
]

pub delete_role-Confined :
    (mask i : ℕ) (db : Store)
    → Aimed mask i db.roles
    → Confined mask db.roles (delete_role i db).1.roles
delete_role-Confined mask i db a = elim (delete_role-cases i db) [
  | inl e ↦ rw e (Confined-refl mask db.roles)
  | inr e ↦ rw e (record {
    kept = λ r h n. elim (Bool-cases (has_role_id i r)) [
      | inl c ↦ absurd (n (a r h c))
      | inr c ↦ delete-In (has_role_id i) db.roles c h
    ];
    bounded = λ r h. inl (In-delete (has_role_id i) db.roles r h);
  })
]
