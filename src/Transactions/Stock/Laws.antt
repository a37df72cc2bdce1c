-- ===== src/Transactions/Stock/Laws.antt =====
-- What a purchase takes from the stock.
use telegramshop_zijjn.Prelude.{
  ℕ, ◌+◌, ◌≤◌, ◌<◌, ◌≡◌, ◌≢◌, refl, sym, subst, inl, inr, true, false, some, List, [], ◌∷◌, All, In,
  delete_where, update_where, arith, if◌then◌else◌, Bool-cases, Option-cases,
}
use telegramshop_zijjn.Prelude.Rows.{select-In}
use telegramshop_zijjn.Models.{ItemValue}
use telegramshop_zijjn.Transactions.Stock.{
  is_stock_of, has_value_id, before, least, pick_value, consume, units, one_less,
}

-- No two rows share an id, and no row is empty: the primary key and ck_item_values_quantity_positive.
abbrev pub IsStock : List ItemValue → Type 0
IsStock [] = Unit
IsStock (v ∷ vs) = (1 ≤ v.quantity) × All (λ w. v.id ≢ w.id) vs × IsStock vs

least-In : (vs : List ItemValue) {v : ItemValue} → least vs ≡ some v → In v vs
unfolding least
least-In [] h = absurd (cc)
least-In (x ∷ vs) {v} h = elim (Option-cases (least vs)) [
  | inl e ↦ inl (ground arith)
  | inr (w, e) ↦ elim (Bool-cases (before w x)) [
    | inl b ↦ inr (least-In vs (ground arith))
    | inr b ↦ inl (ground arith)
  ]
]

pub pick_value-In :
    (item_id : ℕ) (rows : List ItemValue) {v : ItemValue}
    → pick_value item_id rows ≡ some v
    → In v rows × (is_stock_of item_id v ≡ true)
unfolding pick_value
pick_value-In item_id rows h = select-In (is_stock_of item_id) rows (least-In _ h)

-- A row of unlimited stock is taken before any other.
least_prefers_infinite :
    (vs : List ItemValue) (w : ItemValue)
    → In w vs
    → w.is_infinity ≡ true
    → (v : ItemValue) × (least vs ≡ some v) × (v.is_infinity ≡ true)
unfolding least
least_prefers_infinite [] w i h = absurd i
least_prefers_infinite (x ∷ vs) w (inl e) h = elim (Option-cases (least vs)) [
  | inl n ↦ (x, ground arith, ground arith)
  | inr (y, n) ↦ elim (Bool-cases (before y x)) [
    | inl b ↦ (y, ground arith, ground arith)
    | inr b ↦ (x, ground arith, ground arith)
  ]
]
least_prefers_infinite (x ∷ vs) w (inr i) h =
    let (y, n, f) = least_prefers_infinite vs w i h in
    elim (Bool-cases (before y x)) [
      | inl b ↦ (y, ground arith, f)
      | inr b ↦ (x, ground arith, ground arith)
    ]

-- An id that no row has.
abbrev pub Fresh : ℕ → List ItemValue → Type 0
Fresh i = All (λ w. i ≢ w.id)

pub In-Fresh : (vs : List ItemValue) {i : ℕ} (v : ItemValue) → Fresh i vs → In v vs → i ≢ v.id
In-Fresh [] v f m = absurd m
In-Fresh (x ∷ vs) {i} v f (inl e) = ground arith
In-Fresh (x ∷ vs) {i} v f (inr m) = In-Fresh vs v f.1 m

update-Fresh :
    (i : ℕ) (g : ItemValue → ItemValue) (vs : List ItemValue)
    → Fresh i vs
    → update_where (has_value_id i) g vs ≡ vs
update-Fresh i g [] f = refl
update-Fresh i g (x ∷ vs) f = ground (arith, update-Fresh i g vs f.1)

delete-Fresh : (i : ℕ) (vs : List ItemValue) → Fresh i vs → delete_where (has_value_id i) vs ≡ vs
delete-Fresh i [] f = refl
delete-Fresh i (x ∷ vs) f = ground (arith, delete-Fresh i vs f.1)

Fresh-update :
    (i j : ℕ) (vs : List ItemValue)
    → Fresh i vs
    → Fresh i (update_where (has_value_id j) one_less vs)
Fresh-update i j [] f = tt
Fresh-update i j (x ∷ vs) f = (ground arith, Fresh-update i j vs f.1)

Fresh-delete :
    (i j : ℕ) (vs : List ItemValue) → Fresh i vs → Fresh i (delete_where (has_value_id j) vs)
Fresh-delete i j [] f = tt
Fresh-delete i j (x ∷ vs) f = ground (arith, Fresh-delete i j vs f.1)

same_id : (i : ℕ) (x : ItemValue) → (if has_value_id i x then one_less x else x).id ≡ x.id
same_id i x = ground arith

update-IsStock :
    (v : ItemValue) (vs : List ItemValue)
    → IsStock vs
    → In v vs
    → 1 < v.quantity
    → IsStock (update_where (has_value_id v.id) one_less vs)
update-IsStock v [] s m q = tt
update-IsStock v (x ∷ vs) s (inl e) q = (
  ground arith,
  subst (λ k. Fresh k (update_where (has_value_id v.id) one_less vs)) (sym (same_id v.id x))
      (Fresh-update x.id v.id vs s.1),
  rw (update-Fresh v.id one_less vs (subst (λ y. Fresh y.id vs) e s.1)) s.2,
)
update-IsStock v (x ∷ vs) s (inr m) q = (
  ground (arith, In-Fresh vs v s.1 m),
  subst (λ k. Fresh k (update_where (has_value_id v.id) one_less vs)) (sym (same_id v.id x))
      (Fresh-update x.id v.id vs s.1),
  update-IsStock v vs s.2 m q,
)

delete-IsStock :
    (i : ℕ) (vs : List ItemValue) → IsStock vs → IsStock (delete_where (has_value_id i) vs)
delete-IsStock i [] s = tt
delete-IsStock i (x ∷ vs) s = ground (arith, delete-IsStock i vs s.2, Fresh-delete x.id i vs s.1)

-- Consuming a row that is in stock keeps the rows distinct and none of them empty.
pub consume-IsStock :
    (v : ItemValue) (rows : List ItemValue) → IsStock rows → In v rows → IsStock (consume v rows)
unfolding consume
consume-IsStock v rows s m = ground (arith, update-IsStock v rows s m, delete-IsStock v.id rows s)

update-units :
    (item_id : ℕ) (v : ItemValue) (vs : List ItemValue)
    → IsStock vs
    → In v vs
    → is_stock_of item_id v ≡ true
    → 1 < v.quantity
    → units item_id (update_where (has_value_id v.id) one_less vs) + 1 ≡ units item_id vs
unfolding units
update-units i v [] s m t q = absurd m
update-units i v (x ∷ vs) s (inl e) t q =
    ground (arith, update-Fresh v.id one_less vs (subst (λ y. Fresh y.id vs) e s.1))
update-units i v (x ∷ vs) s (inr m) t q =
    ground (arith, In-Fresh vs v s.1 m, update-units i v vs s.2 m t q)

delete-units :
    (item_id : ℕ) (v : ItemValue) (vs : List ItemValue)
    → IsStock vs
    → In v vs
    → is_stock_of item_id v ≡ true
    → units item_id (delete_where (has_value_id v.id) vs) + v.quantity ≡ units item_id vs
unfolding units
delete-units i v [] s m t = absurd m
delete-units i v (x ∷ vs) s (inl e) t =
    ground (arith, delete-Fresh v.id vs (subst (λ y. Fresh y.id vs) e s.1))
delete-units i v (x ∷ vs) s (inr m) t =
    ground (arith, In-Fresh vs v s.1 m, delete-units i v vs s.2 m t)

In-quantity : (v : ItemValue) (vs : List ItemValue) → IsStock vs → In v vs → 1 ≤ v.quantity
In-quantity v [] s m = absurd m
In-quantity v (x ∷ vs) s (inl e) = ground arith
In-quantity v (x ∷ vs) s (inr m) = In-quantity v vs s.2 m

-- A purchase takes one unit from finite stock.
pub consume-units :
    (item_id : ℕ) (v : ItemValue) (rows : List ItemValue)
    → IsStock rows
    → In v rows
    → is_stock_of item_id v ≡ true
    → v.is_infinity ≡ false
    → units item_id (consume v rows) + 1 ≡ units item_id rows
unfolding consume
consume-units i v rows s m t f =
    ground (arith, update-units i v rows s m t, delete-units i v rows s m t, In-quantity v rows s m)
