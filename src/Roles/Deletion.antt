-- ===== src/Roles/Deletion.antt =====
-- What the deletion of a role leaves: nobody's permissions change, and nothing but the role goes.
use telegramshop_zijjn.Prelude.{
  ℕ, ◌==◌, ◌<◌, ◌≡◌, ◌≢◌, refl, subst, ap, arith, Bool, true, false, Option, none, some, List, [],
  ◌∷◌, ltb, first, count, delete_where, Bool-cases, Option-cases, inl, inr,
}
use telegramshop_zijjn.Prelude.Rows.{first-holds}
use telegramshop_zijjn.Models.{User, Role}
use telegramshop_zijjn.Store.{Store}
use telegramshop_zijjn.Transactions.Accounts.{find_user}
use telegramshop_zijjn.Roles.{
  has_role_id, has_role, is_built_in, RoleError, role_not_found, name_exists, default_role,
  built_in, has_users, drop_role, delete_role, permissions_of, role_of, check_role,
}

-- Why a role is not deleted.
abbrev pub Refused : ℕ → Store → RoleError → Type 0
Refused i db role_not_found = first (has_role_id i) db.roles ≡ none
Refused i db default_role =
    (r : Role) × (first (has_role_id i) db.roles ≡ some r) × (r.default ≡ true)
Refused i db built_in =
    (r : Role) × (first (has_role_id i) db.roles ≡ some r) × (is_built_in r ≡ true)
Refused i db (has_users n) = (0 < n) × (n ≡ count (has_role i) db.users)
Refused i db name_exists = ⊥

-- What is left: every user with the permissions as before, and every role but the deleted one.
pub record Deleted (i : ℕ) (db db' : Store) : Type 0 where
  pub role : Role
  pub found : first (has_role_id i) db.roles ≡ some role
  pub ordinary : role.default ≡ false
  pub own : is_built_in role ≡ false
  pub gone : first (has_role_id i) db'.roles ≡ none
  pub others : (j : ℕ) → i ≢ j → first (has_role_id j) db'.roles ≡ first (has_role_id j) db.roles
  pub users : db'.users ≡ db.users
  pub permissions : (t : ℕ) → check_role t db' ≡ check_role t db

abbrev pub DeleteOutcome : ℕ → Store → Option RoleError × Store → Type 0
DeleteOutcome i db (none, db') = Deleted i db db'
DeleteOutcome i db (some e, db') = Refused i db e × (db' ≡ db)

first-deleted : {A : Type 0} (p : A → Bool) (xs : List A) → first p (delete_where p xs) ≡ none
first-deleted p [] = refl
first-deleted p (x ∷ xs) = ground (arith, first-deleted p xs)

first-kept :
    (i j : ℕ) (rs : List Role)
    → i ≢ j
    → first (has_role_id j) (delete_where (has_role_id i) rs) ≡ first (has_role_id j) rs
first-kept i j [] n = refl
first-kept i j (r ∷ rs) n = ground (arith, first-kept i j rs n)

first-count :
    {A : Type 0} (p q : A → Bool) (xs : List A) {a : A}
    → first p xs ≡ some a
    → count q xs ≡ 0
    → q a ≡ false
first-count p q [] h k = absurd (cc)
first-count p q (x ∷ xs) {a} h k = elim (Bool-cases (p x)) [
  | inl e ↦ let z : x ≡ a = ground arith in subst (λ y. q y ≡ false) z (ground arith)
  | inr e ↦ first-count p q xs (ground arith) (ground arith)
]

-- A user who does not have the role keeps the permissions.
role_of-kept :
    (i : ℕ) (o : Option User) (rs : List Role)
    → ((u : User) → o ≡ some u → has_role i u ≡ false)
    → role_of o (delete_where (has_role_id i) rs) ≡ role_of o rs
role_of-kept i none rs h = refl
role_of-kept i (some u) rs h = go u.role_id (h u refl)
  where
    go :
        (k : Option ℕ)
        → (elim k [ none ↦ false | some j ↦ j == i ]) ≡ false
        → (elim k as (λ _. Option Role) [
          | none ↦ none
          | some j ↦ first (has_role_id j) (delete_where (has_role_id i) rs)
        ])
          ≡ (elim k as (λ _. Option Role) [ none ↦ none | some j ↦ first (has_role_id j) rs ])
    go none e = refl
    go (some j) e = first-kept i j rs (ground arith)

drop_role-DeleteOutcome :
    (r : Role) (i : ℕ) (db : Store)
    → first (has_role_id i) db.roles ≡ some r
    → r.id ≡ i
    → DeleteOutcome i db (drop_role r i db)
unfolding drop_role check_role
drop_role-DeleteOutcome r i db f same = elim (Bool-cases r.default) [
  | inl d ↦ rw d ((r, f, d), refl)
  | inr d ↦ elim (Bool-cases (is_built_in r)) [
    | inl b ↦ rw (d, b) ((r, f, b), refl)
    | inr b ↦ elim (Bool-cases (ltb 0 (count (has_role i) db.users))) [
      | inl c ↦ rw (d, b, c) ((ground arith, refl), refl)
      | inr c ↦
          rw (d, b, c, same)
            (record {
              role = r;
              found = f;
              ordinary = d;
              own = b;
              gone = first-deleted (has_role_id i) db.roles;
              others = λ j n. first-kept i j db.roles n;
              users = refl;
              permissions = λ t. ap permissions_of (
                  role_of-kept i (find_user t db) db.roles
                    (λ u e. first-count _ (has_role i) db.users e (ground arith)));
            })
    ]
  ]
]

-- A role is deleted only if it exists, is neither the default nor built in and no user has it: then no
-- query finds it any more, every other role is found as before, and every user is left with the
-- permissions that `check_role` gave before. Any other answer names its reason, which holds, and leaves
-- the database as it was.
pub delete_role-DeleteOutcome : (i : ℕ) (db : Store) → DeleteOutcome i db (delete_role i db)
unfolding delete_role
delete_role-DeleteOutcome i db = elim (Option-cases (first (has_role_id i) db.roles)) [
  | inl e ↦ rw (e, delete_role) (e, refl)
  | inr (r, e) ↦
      let h = first-holds (has_role_id i) db.roles {a = r} e in
      rw (e, delete_role) (drop_role-DeleteOutcome r i db e (ground arith))
]
