-- ===== src/Cart/Limits.antt =====
-- The limits of a cart hold after every operation.
use telegramshop_zijjn.Prelude.{
  leb, leb_ℤ, ◌&&◌, ℕ, ◌+◌, ◌==◌, ltb, ◌≤◌, ◌≡◌, refl, arith, Bool, true, Option, none, List, [],
  ◌∷◌, Text, ℤ, pos, ◌+ℤ◌, pos_part, first, All, update_where, delete_where, Option-cases,
  Bool-cases, inl, inr,
}
use telegramshop_zijjn.Prelude.Rows.{All-append, All-update, All-delete}
use telegramshop_zijjn.Prelude.Counts.{count-append, count-update, count-delete, count-none}
use telegramshop_zijjn.Models.{CartItem}
use telegramshop_zijjn.Store.{Store}
use telegramshop_zijjn.Cart.{
  attempt, cart_conflict, count, is_of, is_line, has_line_id, with_quantity, grown, new_line,
  with_lines, grow_line, open_line, item_id_of, add_to_cart_once, Race, calm, lost, add_to_cart,
  apply_delta, is_own, set_cart_item_quantity, clause, remove_from_cart, clear_cart,
  cart_max_qty_per_item, cart_max_items,
}

-- 1 to 99 units.
abbrev pub InLimits : CartItem → Type 0
InLimits ci = (1 ≤ ci.quantity) × (ci.quantity ≤ cart_max_qty_per_item)

-- Every line is in its limits, no user has more than 10 lines, or two lines of one product.
pub record IsCartTable (cis : List CartItem) : Type 0 where
  pub limits : All InLimits cis
  pub lines : (u : ℕ) → count (is_of u) cis ≤ cart_max_items
  pub single : (u i : ℕ) → count (is_line u i) cis ≤ 1

delete-IsCartTable :
    (q : CartItem → Bool) (cis : List CartItem) → IsCartTable cis → IsCartTable (delete_where q cis)
delete-IsCartTable q cis t = record {
  limits = All-delete InLimits q cis t.limits;
  lines = λ u. omega (arith, t.lines u, count-delete (is_of u) q cis);
  single = λ u i. omega (arith, t.single u i, count-delete (is_line u i) q cis);
}

update-IsCartTable :
    (q : CartItem → Bool) (f : CartItem → CartItem) (cis : List CartItem)
    → ((ci : CartItem) → InLimits (f ci))
    → ((u : ℕ) (ci : CartItem) → is_of u (f ci) ≡ is_of u ci)
    → ((u i : ℕ) (ci : CartItem) → is_line u i (f ci) ≡ is_line u i ci)
    → IsCartTable cis
    → IsCartTable (update_where q f cis)
update-IsCartTable q f cis l s k t = record {
  limits = All-update InLimits q f (λ ci _ _. l ci) cis t.limits;
  lines = λ u. omega (arith, t.lines u, count-update (is_of u) q f cis (s u));
  single = λ u i. omega (arith, t.single u i, count-update (is_line u i) q f cis (k u i));
}

grow_line-IsCartTable :
    (e : CartItem) (code : Option Text) (quantity : ℕ) (db : Store)
    → 1 ≤ quantity
    → IsCartTable db.cart_items
    → IsCartTable (grow_line e code quantity db).1.cart_items
unfolding grow_line
grow_line-IsCartTable e code quantity db h t =
    elim (Bool-cases (ltb cart_max_qty_per_item (e.quantity + quantity))) [
      | inl b ↦ rw b t
      | inr b ↦ rw b (
          update-IsCartTable (has_line_id e.id) (grown (e.quantity + quantity) code) db.cart_items
            (λ ci. ground arith) (λ u ci. ground arith) (λ u i ci. ground arith) t)
    ]

open_line-IsCartTable :
    (user_id item_id : ℕ) (code : Option Text) (quantity : ℕ) (db : Store)
    → 1 ≤ quantity
    → quantity ≤ cart_max_qty_per_item
    → first (is_line user_id item_id) db.cart_items ≡ none
    → IsCartTable db.cart_items
    → IsCartTable (open_line user_id item_id code quantity db).1.cart_items
unfolding open_line
open_line-IsCartTable user_id item_id code quantity db h k n t =
    elim (Bool-cases (leb cart_max_items (count (is_of user_id) db.cart_items))) [
      | inl b ↦ rw b t
      | inr b ↦
          let row = new_line db.next_id user_id code item_id quantity in
          rw b (record {
            limits = All-append InLimits db.cart_items (row ∷ []) t.limits ((h, k), tt);
            lines = λ u. ground (arith, count-append (is_of u) db.cart_items row, t.lines u);
            single = λ u i. ground (
              arith,
              count-append (is_line u i) db.cart_items row,
              t.single u i,
              count-none (is_line user_id item_id) db.cart_items n,
              same user_id item_id u i,
            );
          })
    ]
  where
    same :
        (a b u i : ℕ)
        → (a == u) && (b == i) ≡ true
        → count (is_line u i) db.cart_items ≡ count (is_line a b) db.cart_items
    same a b u i e = let p : a ≡ u = ground arith in let q : b ≡ i = ground arith in rw (p, q) refl

-- The lines after one attempt.
add_to_cart_once-IsCartTable :
    (user_id : ℕ) (name : Text) (code : Option Text) (quantity : ℕ) (db : Store)
    → 1 ≤ quantity
    → quantity ≤ cart_max_qty_per_item
    → IsCartTable db.cart_items
    → IsCartTable (add_to_cart_once user_id name code quantity db).1.cart_items
unfolding add_to_cart_once
add_to_cart_once-IsCartTable u name code q db h k t = elim (Option-cases (item_id_of name db)) [
  | inl e ↦ rw (e, add_to_cart_once) t
  | inr (i, e) ↦ elim (Option-cases (first (is_line u i) db.cart_items)) [
    | inl n ↦ rw (e, n, add_to_cart_once) (open_line-IsCartTable u i code q db h k n t)
    | inr (c, n) ↦ rw (e, n, add_to_cart_once) (grow_line-IsCartTable c code q db h t)
  ]
]

-- A race is lost to a transaction that keeps the limits.
abbrev pub IsFair : Race → Type 0
IsFair calm = Unit
IsFair (lost winner) = IsCartTable winner

-- Adding at most 99 units keeps every line between 1 and 99 units, every user at 10 lines at most and
-- every product on one line of a user, also when the two attempts lose their race against
-- transactions that keep these limits.
pub add_to_cart-IsCartTable :
    (r r' : Race) (user_id : ℕ) (name : Text) (code : Option Text) (quantity : ℕ) (db : Store)
    → quantity ≤ cart_max_qty_per_item
    → IsFair r
    → IsFair r'
    → IsCartTable db.cart_items
    → IsCartTable (add_to_cart r r' user_id name code quantity db).1.cart_items
unfolding add_to_cart
add_to_cart-IsCartTable r r' u name code q db k f f' t = elim (Bool-cases (ltb q 1)) [
  | inl e ↦ rw e t
  | inr e ↦ rw e (attempts (ground arith) r r' f f')
]
  where
    attempts :
        1 ≤ q
        → (r r' : Race) → IsFair r
        → IsFair r'
        → IsCartTable
            (attempt r u name code q db
              (λ db2. attempt r' u name code q db2 (λ db3. (cart_conflict, db3)))).1.cart_items
    attempts h calm r' f f' = add_to_cart_once-IsCartTable u name code q db h k t
    attempts h (lost ws) calm f f' =
        add_to_cart_once-IsCartTable u name code q (with_lines ws db) h k f
    attempts h (lost ws) (lost vs) f f' = f'

apply_delta-IsCartTable :
    (row : CartItem) (delta : ℤ) (db : Store)
    → IsCartTable db.cart_items
    → IsCartTable (apply_delta row delta db).1.cart_items
unfolding apply_delta
apply_delta-IsCartTable row delta db t =
    elim (Bool-cases (leb_ℤ (pos row.quantity +ℤ delta) (pos 0))) [
      | inl e ↦ rw e (delete-IsCartTable (has_line_id row.id) db.cart_items t)
      | inr e ↦
          elim (Bool-cases (ltb cart_max_qty_per_item (pos_part (pos row.quantity +ℤ delta)))) [
            | inl b ↦ rw (e, b) t
            | inr b ↦
                rw (e, b)
                  (update-IsCartTable (has_line_id row.id)
                    (with_quantity (pos_part (pos row.quantity +ℤ delta))) db.cart_items
                    (λ ci. ground arith) (λ u ci. refl) (λ u i ci. refl) t)
          ]
    ]

-- Changing a line by any amount, up or down, keeps the limits.
pub set_cart_item_quantity-IsCartTable :
    (i user_id : ℕ) (delta : ℤ) (db : Store)
    → IsCartTable db.cart_items
    → IsCartTable (set_cart_item_quantity i user_id delta db).1.cart_items
unfolding set_cart_item_quantity
set_cart_item_quantity-IsCartTable i u delta db t =
    elim (Option-cases (first (is_own i u) db.cart_items)) [
      | inl e ↦ rw (e, set_cart_item_quantity) t
      | inr (row, e) ↦ rw (e, set_cart_item_quantity) (apply_delta-IsCartTable row delta db t)
    ]

-- Removing a line, or all lines of a user, keeps the limits.
pub removal-IsCartTable :
    (i user_id : ℕ) (owner : Option ℕ) (db : Store)
    → IsCartTable db.cart_items
    → IsCartTable (remove_from_cart i owner db).1.cart_items
      × IsCartTable (clear_cart user_id db).1.cart_items
unfolding remove_from_cart clear_cart
removal-IsCartTable i u owner db t =
    (delete-IsCartTable (clause i owner) _ t, delete-IsCartTable (is_of u) _ t)
