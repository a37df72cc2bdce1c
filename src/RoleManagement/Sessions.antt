-- ===== src/RoleManagement/Sessions.antt =====
-- No dialogue gets beyond the permissions of the one who leads it.
use telegramshop_zijjn.Prelude.{
  ℕ, ◌≡◌, refl, sym, subst, arith, true, Option, none, some, List, [], ◌∷◌, ℤ, Text, text_eq, codes,
  strip, upper, first, All, Bool-cases, Option-cases, inl, inr,
}
use telegramshop_zijjn.Prelude.Members.{single-In}
use telegramshop_zijjn.Models.{Role}
use telegramshop_zijjn.Models.Permission.{is_subset, granted}
use telegramshop_zijjn.Models.Permission.Bits.{Within, is_subset-Within, has_bit-zero}
use telegramshop_zijjn.Store.{Store, log_audit}
use telegramshop_zijjn.Roles.{RoleError, has_role_id, create_role, update_role, delete_role}
use telegramshop_zijjn.RoleManagement.Masks.{covers}
use telegramshop_zijjn.RoleManagement.Confined.{
  IsNumbered, Confined, Confined-refl, Confined-trans, Aimed, create_role-IsNumbered,
  update_role-IsNumbered, delete_role-IsNumbered, create_role-Confined, update_role-Confined,
  delete_role-Confined,
}
use telegramshop_zijjn.RoleManagement.{
  Mode, create, edit, Dialogue, Update, role_mgmt, role_new, message, role_edit, toggle_perm,
  perms_done, role_delete, Session, admins_manage, cleared, role_within, start_edit, toggle_bit,
  role_create_name, role_edit_start, role_edit_name, on_message, chooses_perms, is_bad_name,
  logged_create, logged_change, write_role, finish_perms, delete_found, with_dialogue, handle,
  handle_all, RoleState, idle, waiting_role_name, waiting_role_perms, editing_role_name,
  editing_role_perms,
}

module _ (mask : ℕ) where
  -- The caller's permissions that a dialogue has stored, and the role that it is to change, are within
  -- the mask.
  record Fits (rs : List Role) (d : Dialogue) : Type 0 where
    caller : Within d.caller_perms mask
    aim : (i : ℕ) → d.role_id ≡ some i → Aimed mask i rs

  -- What holds between two updates.
  pub record IsHeld (s : Session) : Type 0 where
    pub numbered : IsNumbered s.store
    pub caller : Within s.dialogue.caller_perms mask
    pub aim : (i : ℕ) → s.dialogue.role_id ≡ some i → Aimed mask i s.store.roles

  pub record Step (s s' : Session) : Type 0 where
    pub held : IsHeld s'
    pub confined : Confined mask s.store.roles s'.store.roles

  fits : {s : Session} → IsHeld s → Fits s.store.roles s.dialogue
  fits h = record { caller = h.caller; aim = h.aim }

  stay : (s : Session) → IsHeld s → Step s s
  stay s h = record { held = h; confined = Confined-refl mask s.store.roles }

  redial :
      (s : Session) (d : Dialogue) → IsHeld s → Fits s.store.roles d → Step s (with_dialogue s d)
  redial s d h f = record {
    held = record { numbered = h.numbered; caller = f.caller; aim = f.aim };
    confined = Confined-refl mask s.store.roles;
  }

  Aimed-Confined :
      (i : ℕ) (before after : List Role)
      → Confined mask before after
      → Aimed mask i before
      → Aimed mask i after
  Aimed-Confined i before after c a r h e = elim (c.bounded r h) [ inl k ↦ a r k e | inr w ↦ w ]

  cleared-Fits : (rs : List Role) → Fits rs cleared
  cleared-Fits rs = record {
    caller = λ i h. absurd (has_bit-zero i 0 (omega arith) h);
    aim = λ i e. absurd (cc);
  }

  -- A role that a handler found within the caller's permissions.
  role_within-Aimed :
      (caller i : ℕ) (db : Store) {r : Role}
      → Within caller mask
      → IsNumbered db
      → role_within caller i db ≡ some r
      → Aimed mask i db.roles
  unfolding role_within
  role_within-Aimed caller i db {r} w n f = elim (Option-cases (first (has_role_id i) db.roles)) [
    | inl e ↦ absurd (ground arith)
    | inr (a, e) ↦ λ b h k.
        let s : is_subset a.permissions caller ≡ true = ground arith in
        let q = single-In (has_role_id i) db.roles (n.table.ids i) e k h in
        subst (λ x. Within x.permissions mask) (sym q)
          (λ j o. w j ((is_subset-Within a.permissions caller).0 s j o))
  ]

  role_create_name-Fits :
      (rs : List Role) (caller : ℕ) (text : Text) (d : Dialogue)
      → Within caller mask
      → Fits rs d
      → Fits rs (role_create_name caller text d)
  unfolding role_create_name
  role_create_name-Fits rs caller text d w f =
      elim (Bool-cases (is_bad_name (upper (strip text)))) [
        | inl e ↦ rw e f
        | inr e ↦ rw e (record { caller = w; aim = f.aim })
      ]

  role_edit_name-Fits :
      (rs : List Role) (text : Text) (d : Dialogue) → Fits rs d → Fits rs (role_edit_name text d)
  unfolding role_edit_name
  role_edit_name-Fits rs text d f = elim (Bool-cases (text_eq (strip text) (codes "/skip"))) [
    | inl e ↦ rw e (record { caller = f.caller; aim = f.aim })
    | inr e ↦ elim (Bool-cases (is_bad_name (upper (strip text)))) [
      | inl b ↦ rw (e, b) f
      | inr b ↦ rw (e, b) (record { caller = f.caller; aim = f.aim })
    ]
  ]

  on_message-Fits :
      (rs : List Role) (caller : ℕ) (text : Text) (st : RoleState) (d : Dialogue)
      → Within caller mask
      → Fits rs d
      → Fits rs (on_message caller text st d)
  unfolding on_message
  on_message-Fits rs caller text waiting_role_name d w f =
      role_create_name-Fits rs caller text d w f
  on_message-Fits rs caller text editing_role_name d w f = role_edit_name-Fits rs text d f
  on_message-Fits rs caller text idle d w f = f
  on_message-Fits rs caller text waiting_role_perms d w f = f
  on_message-Fits rs caller text editing_role_perms d w f = f

  role_edit_start-Fits :
      (caller i : ℕ) (db : Store) (d : Dialogue)
      → Within caller mask
      → IsNumbered db
      → Fits db.roles d
      → Fits db.roles (role_edit_start caller i db d)
  unfolding role_edit_start start_edit
  role_edit_start-Fits caller i db d w n f = elim (Option-cases (role_within caller i db)) [
    | inl e ↦ rw (e, start_edit) f
    | inr (r, e) ↦
        rw (e, start_edit)
          (record {
            caller = w;
            aim = λ j q.
                subst (λ k. Aimed mask k db.roles) (same q) (role_within-Aimed caller i db w n e);
          })
  ]
    where
      same : {a b : ℕ} → some a ≡ some b → a ≡ b
      same q = cc

  toggle_bit-Fits :
      (rs : List Role) (bit : ℤ) (d : Dialogue) → Fits rs d → Fits rs (toggle_bit bit d)
  unfolding toggle_bit
  toggle_bit-Fits rs bit d f = elim (Bool-cases (covers bit d.caller_perms)) [
    | inl e ↦ rw e (record { caller = f.caller; aim = f.aim })
    | inr e ↦ rw e f
  ]

  -- A write to the roles.
  record Written (before after : Store) : Type 0 where
    numbered : IsNumbered after
    confined : Confined mask before.roles after.roles

  unwritten : (db : Store) → IsNumbered db → Written db db
  unwritten db n = record { numbered = n; confined = Confined-refl mask db.roles }

  logged_create-Written :
      (caller_id : ℕ) (before : Store) (r : Option ℕ × Store)
      → Written before r.1
      → Written before (logged_create caller_id r)
  unfolding logged_create log_audit
  logged_create-Written caller_id before (none, db) w = w
  logged_create-Written caller_id before (some i, db) w = record {
    numbered = record {
      table = record { names = w.numbered.table.names; ids = w.numbered.table.ids };
      fresh = w.numbered.fresh;
    };
    confined = w.confined;
  }

  logged_change-Written :
      (action : Text) (caller_id i : ℕ) (before : Store) (r : Option RoleError × Store)
      → Written before r.1
      → Written before (logged_change action caller_id i r)
  unfolding logged_change log_audit
  logged_change-Written action caller_id i before (some e, db) w = w
  logged_change-Written action caller_id i before (none, db) w = record {
    numbered = record {
      table = record { names = w.numbered.table.names; ids = w.numbered.table.ids };
      fresh = w.numbered.fresh;
    };
    confined = w.confined;
  }

  write_role-Written :
      (caller_id : ℕ) (mode : Option Mode) (role_id : Option ℕ) (name : Text) (perms : ℕ)
      (db : Store)
      → Within perms mask
      → ((i : ℕ) → role_id ≡ some i → Aimed mask i db.roles)
      → IsNumbered db
      → Written db (write_role caller_id mode role_id name perms db)
  unfolding write_role
  write_role-Written caller_id none role_id name perms db w a n = unwritten db n
  write_role-Written caller_id (some create) role_id name perms db w a n =
      logged_create-Written caller_id db (create_role name perms db) (record {
        numbered = create_role-IsNumbered name perms db n;
        confined = create_role-Confined mask name perms db w;
      })
  write_role-Written caller_id (some edit) none name perms db w a n = unwritten db n
  write_role-Written caller_id (some edit) (some i) name perms db w a n =
      logged_change-Written (codes "update_role") caller_id i db (update_role i name perms db)
        (record {
          numbered = update_role-IsNumbered i name perms db n;
          confined = update_role-Confined mask i name perms db w (a i refl);
        })

  finish_perms-Step : (caller_id : ℕ) (s : Session) → IsHeld s → Step s (finish_perms caller_id s)
  unfolding finish_perms
  finish_perms-Step caller_id s h =
      elim (Bool-cases (is_subset s.dialogue.role_perms s.dialogue.caller_perms)) [
        | inl e ↦
            let d = s.dialogue in
            let w =
              write_role-Written caller_id d.mode d.role_id d.role_name d.role_perms s.store
                (λ i k. h.caller i ((is_subset-Within d.role_perms d.caller_perms).0 e i k)) h.aim
                h.numbered in
            rw e (record {
              held = record {
                numbered = w.numbered;
                caller = (cleared-Fits []).caller;
                aim = λ i q. absurd (cc);
              };
              confined = w.confined;
            })
        | inr e ↦ rw e (stay s h)
      ]

  delete_found-Written :
      (caller_id i : ℕ) (o : Option Role) (db : Store)
      → ((r : Role) → o ≡ some r → Aimed mask i db.roles)
      → IsNumbered db
      → Written db (delete_found caller_id i o db)
  unfolding delete_found
  delete_found-Written caller_id i none db a n = unwritten db n
  delete_found-Written caller_id i (some r) db a n =
      logged_change-Written (codes "delete_role") caller_id i db (delete_role i db) (record {
        numbered = delete_role-IsNumbered i db n;
        confined = delete_role-Confined mask i db (a r refl);
      })

  handle-Step :
      (caller_id caller : ℕ) (u : Update) (s : Session)
      → Within caller mask
      → IsHeld s
      → Step s (handle caller_id caller u s)
  unfolding handle
  handle-Step caller_id caller role_mgmt s w h = elim (Bool-cases (granted caller admins_manage)) [
    | inl e ↦ rw e (redial s cleared h (cleared-Fits s.store.roles))
    | inr e ↦ rw e (stay s h)
  ]
  handle-Step caller_id caller role_new s w h = elim (Bool-cases (granted caller admins_manage)) [
    | inl e ↦ rw e (redial s _ h (record { caller = h.caller; aim = h.aim }))
    | inr e ↦ rw e (stay s h)
  ]
  handle-Step caller_id caller (message text) s w h =
      redial s _ h
        (on_message-Fits s.store.roles caller text s.dialogue.state s.dialogue w (fits h))
  handle-Step caller_id caller (role_edit i) s w h =
      elim (Bool-cases (granted caller admins_manage)) [
        | inl e ↦
            rw e (
              redial s _ h (role_edit_start-Fits caller i s.store s.dialogue w h.numbered (fits h)))
        | inr e ↦ rw e (stay s h)
      ]
  handle-Step caller_id caller (toggle_perm bit) s w h =
      elim (Bool-cases (chooses_perms s.dialogue.state)) [
        | inl e ↦ rw e (redial s _ h (toggle_bit-Fits s.store.roles bit s.dialogue (fits h)))
        | inr e ↦ rw e (stay s h)
      ]
  handle-Step caller_id caller perms_done s w h =
      elim (Bool-cases (chooses_perms s.dialogue.state)) [
        | inl e ↦ rw e (finish_perms-Step caller_id s h)
        | inr e ↦ rw e (stay s h)
      ]
  handle-Step caller_id caller (role_delete i) s w h =
      elim (Bool-cases (granted caller admins_manage)) [
        | inl e ↦ rw e (deleted (granted_write e))
        | inr e ↦ rw e (stay s h)
      ]
    where
      granted_write :
          granted caller admins_manage ≡ true
          → Written s.store (delete_found caller_id i (role_within caller i s.store) s.store)
      granted_write e =
          delete_found-Written caller_id i (role_within caller i s.store) s.store
            (λ r q. role_within-Aimed caller i s.store w h.numbered q) h.numbered

      deleted : {db : Store} → Written s.store db → Step s (record s { store = db })
      deleted {db} d = record {
        held = record {
          numbered = d.numbered;
          caller = h.caller;
          aim = λ j q. Aimed-Confined j s.store.roles db.roles d.confined (h.aim j q);
        };
        confined = d.confined;
      }

  -- Whatever updates a user sends, in whatever order, each with permissions within the mask, no role
  -- with a permission beyond the mask is changed, deleted or made, and the names and the ids of the
  -- roles stay apart. This is said of a dialogue that is led with no other change of the roles meanwhile.
  pub handle_all-Step :
      (caller_id : ℕ) (us : List (ℕ × Update)) (s : Session)
      → All (λ u. Within u.0 mask) us
      → IsHeld s
      → Step s (handle_all caller_id us s)
  unfolding handle_all
  handle_all-Step caller_id [] s a h = stay s h
  handle_all-Step caller_id ((caller, u) ∷ us) s a h =
      let p = handle-Step caller_id caller u s a.0 h in
      let q = handle_all-Step caller_id us (handle caller_id caller u s) a.1 p.held in
      record { held = q.held; confined = Confined-trans mask _ _ _ p.confined q.confined }
