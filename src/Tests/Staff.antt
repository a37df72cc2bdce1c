-- ===== src/Tests/Staff.antt =====
-- An administrator at work on the roles of the small shop.
use telegramshop_zijjn.Prelude.{ℕ, ◌≡◌, refl, arith, true, false, some, [], ◌∷◌, List, codes, pos}
use telegramshop_zijjn.Models.Permission.{
  mask_and, and_digits, is_subset, mask_without, clear_digits,
}
use telegramshop_zijjn.Models.Permission.Bits.{Within, is_subset-Within}
use telegramshop_zijjn.RoleManagement.{
  Session, Update, role_new, message, toggle_perm, perms_done, role_edit, handle_all, cleared,
}
use telegramshop_zijjn.RoleManagement.Masks.{covers, toggle, toggle-Within}
use telegramshop_zijjn.RoleManagement.Sessions.{IsHeld, Step, handle_all-Step}
use telegramshop_zijjn.RoleManagement.Assign.{
  Chat, AssignOutcome, assign_role_confirm, assign_role_confirm-AssignOutcome,
}
use telegramshop_zijjn.RoleManagement.Payload.{
  assign_payload, parse_assign, parse_assign-assign_payload,
}
use telegramshop_zijjn.Transactions.Accounts.{find_user}
use telegramshop_zijjn.Tests.{staffed, staffed_table}

abbrev desk : Session
desk = record { dialogue = cleared; store = staffed }

abbrev changes : List (ℕ × Update)
changes =
    (41, role_new)
    ∷ (41, message (codes "support"))
    ∷ (41, toggle_perm (pos 8))
    ∷ (41, toggle_perm (pos 64))
    ∷ (41, perms_done)
    ∷ (41, role_edit 2)
    ∷ []

desk-IsHeld : IsHeld 41 desk
unfolding is_subset mask_without clear_digits
desk-IsHeld = record {
  numbered = record { table = staffed_table; fresh = λ i h. ground arith };
  caller = (is_subset-Within 0 41).0 refl;
  aim = λ i e. absurd (cc);
}

desk_example : Step 41 desk (handle_all 7 changes desk)
desk_example =
    handle_all-Step 41 7 changes desk
      (λ i h. h, (λ i h. h, (λ i h. h, (λ i h. h, (λ i h. h, (λ i h. h, tt)))))) desk-IsHeld

abbrev chat : Chat
chat = record { target_known = true; delivered = false; caller_known = true }

assign_example :
    AssignOutcome 41
      (assign_payload 2 7)
      (λ i. find_user i staffed)
      staffed
      (assign_role_confirm 9 41 chat (assign_payload 2 7) (λ i. find_user i staffed) staffed).0
      (assign_role_confirm 9 41 chat (assign_payload 2 7) (λ i. find_user i staffed) staffed).1
assign_example =
    assign_role_confirm-AssignOutcome 9 41 chat (assign_payload 2 7) (λ i. find_user i staffed)
      staffed

payload_example : parse_assign (assign_payload 12 7045) ≡ some (12, 7045)
payload_example = parse_assign-assign_payload 12 7045

toggle_example : Within (toggle 9 (pos 32)) 41
unfolding covers mask_and and_digits is_subset mask_without clear_digits
toggle_example = toggle-Within 9 41 (pos 32) refl ((is_subset-Within 9 41).0 refl)
