-- ===== src/Models/Permission.antt =====
-- `Permission` and the permission methods of `Role` (bot/database/models/main.py). A mask is a natural
-- number; `a & b` and `a & ~b` go digit by digit, a itself being digits enough.
pub mod Bits
use telegramshop_zijjn.Prelude.{ℕ, zero, suc, ◌+◌, ◌-◌, ◌*◌, ◌/◌, ◌%◌, Bool, not, ◌==◌}

unfoldable pub and_digits : ℕ → ℕ → ℕ → ℕ
and_digits zero a b = 0
and_digits (suc n) a b = 2 * and_digits n (a / 2) (b / 2) + (a % 2) * (b % 2)

unfoldable pub clear_digits : ℕ → ℕ → ℕ → ℕ
clear_digits zero a b = 0
clear_digits (suc n) a b = 2 * clear_digits n (a / 2) (b / 2) + (a % 2) * (1 - b % 2)

-- `a & b`
unfoldable pub mask_and : ℕ → ℕ → ℕ
mask_and a b = and_digits a a b

-- `a & ~b`
unfoldable pub mask_without : ℕ → ℕ → ℕ
mask_without a b = clear_digits a a b

abbrev pub use_permission : ℕ
use_permission = 1

unfoldable pub is_subset : ℕ → ℕ → Bool
is_subset perms of = mask_without perms of == 0

unfoldable pub has_any_admin_perm : ℕ → Bool
has_any_admin_perm perms = not (mask_without perms use_permission == 0)

-- `(perms & bit) == bit`, also in `HasPermissionFilter` and `Role.has_permission`.
unfoldable pub granted : ℕ → ℕ → Bool
granted perms bit = mask_and perms bit == bit
