-- ===== src/Cart/Sequences.antt =====
-- The limits of a cart hold through any sequence of its operations.
use telegramshop_zijjn.Prelude.{ℕ, ◌≤◌, Option, List, [], ◌∷◌, Text, ℤ, All}
use telegramshop_zijjn.Store.{Store}
use telegramshop_zijjn.Cart.{
  Race, add_to_cart, set_cart_item_quantity, remove_from_cart, clear_cart, cart_max_qty_per_item,
}
use telegramshop_zijjn.Cart.Limits.{
  IsCartTable, IsFair, add_to_cart-IsCartTable, set_cart_item_quantity-IsCartTable,
  removal-IsCartTable,
}

-- A call of the cart's methods; the races that an addition may lose come with it.
pub data CartCall : Type 0 where
  add : Race → Race → ℕ → Text → Option Text → ℕ → CartCall
  change : ℕ → ℕ → ℤ → CartCall
  remove : ℕ → Option ℕ → CartCall
  clear : ℕ → CartCall

pub call_cart : CartCall → Store → Store
call_cart (add r r' user_id name code quantity) db =
    (add_to_cart r r' user_id name code quantity db).1
call_cart (change i user_id delta) db = (set_cart_item_quantity i user_id delta db).1
call_cart (remove i owner) db = (remove_from_cart i owner db).1
call_cart (clear user_id) db = (clear_cart user_id db).1

unfoldable pub call_all : List CartCall → Store → Store
call_all [] db = db
call_all (c ∷ cs) db = call_all cs (call_cart c db)

-- An addition asks for 99 units at most and loses its races to calls that keep the limits.
abbrev pub IsAdmissible : CartCall → Type 0
IsAdmissible (add r r' user_id name code quantity) =
    (quantity ≤ cart_max_qty_per_item) × IsFair r × IsFair r'
IsAdmissible (change i user_id delta) = Unit
IsAdmissible (remove i owner) = Unit
IsAdmissible (clear user_id) = Unit

call_cart-IsCartTable :
    (c : CartCall) (db : Store)
    → IsAdmissible c
    → IsCartTable db.cart_items
    → IsCartTable (call_cart c db).cart_items
unfolding call_cart
call_cart-IsCartTable (add r r' user_id name code quantity) db a t =
    add_to_cart-IsCartTable r r' user_id name code quantity db a.0 a.1 a.2 t
call_cart-IsCartTable (change i user_id delta) db a t =
    set_cart_item_quantity-IsCartTable i user_id delta db t
call_cart-IsCartTable (remove i owner) db a t = (removal-IsCartTable i 0 owner db t).0
call_cart-IsCartTable (clear user_id) db a t = (removal-IsCartTable 0 user_id Option.none db t).1

-- Through any sequence of additions of at most 99 units, changes by any amount, removals and clearings,
-- every line keeps 1 to 99 units, every user 10 lines at most and every product one line of a user,
-- also where an addition loses its attempts to others that keep these limits.
pub call_all-IsCartTable :
    (cs : List CartCall) (db : Store)
    → All IsAdmissible cs
    → IsCartTable db.cart_items
    → IsCartTable (call_all cs db).cart_items
unfolding call_all
call_all-IsCartTable [] db a t = t
call_all-IsCartTable (c ∷ cs) db a t =
    call_all-IsCartTable cs (call_cart c db) a.1 (call_cart-IsCartTable c db a.0 t)
