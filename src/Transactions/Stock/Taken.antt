-- ===== src/Transactions/Stock/Taken.antt =====
-- Which row of a product a purchase takes, and what is left of the stock, told without the code.
use telegramshop_zijjn.Prelude.{
  ℕ, ◌+◌, ◌-◌, ◌==◌, ◌≤◌, ◌≡◌, ◌≢◌, ◌⊎◌, refl, subst, sym, ◌∙◌, arith, ltb, if◌then◌else◌, Bool,
  not, ◌&&◌, ◌||◌, true, false, Option, none, some, List, [], ◌∷◌, All, In, first, select_where,
  update_where, delete_where, Bool-cases, Option-cases, inl, inr,
}
use telegramshop_zijjn.Prelude.Rows.{first-update_self, first-update_other}
use telegramshop_zijjn.Models.{ItemValue}
use telegramshop_zijjn.Transactions.Stock.{
  is_stock_of, has_value_id, before, least, pick_value, one_less, consume, units,
}
use telegramshop_zijjn.Transactions.Stock.Laws.{
  IsStock, In-Fresh, pick_value-In, consume-units, consume-IsStock,
}

-- Unlimited rows are delivered first, then the row with the lowest id.
abbrev pub Precedes : ItemValue → ItemValue → Type 0
Precedes v w =
    ((v.is_infinity ≡ true) × (w.is_infinity ≡ false))
    ⊎ ((v.is_infinity ≡ w.is_infinity) × (v.id ≤ w.id))

-- A row of the product is no earlier in that order; rows of other products do not matter.
abbrev pub Comes : ℕ → ItemValue → ItemValue → Type 0
Comes item_id v w = (w.item_id ≢ item_id) ⊎ Precedes v w

-- What is left of the row: all of an unlimited one, nothing of a last unit, or one unit less.
abbrev pub left_of : ItemValue → Option ItemValue
left_of v =
    if v.is_infinity
    then some v
    else if v.quantity == 1
    then none
    else some (record v { quantity = v.quantity - 1 })

-- One delivery from the rows of a product.
pub record Taken (item_id : ℕ) (v : ItemValue) (rows rows' : List ItemValue) : Type 0 where
  pub present : In v rows
  pub product : v.item_id ≡ item_id
  pub earliest : All (Comes item_id v) rows
  pub row : first (has_value_id v.id) rows' ≡ left_of v
  pub others : (i : ℕ) → v.id ≢ i → first (has_value_id i) rows' ≡ first (has_value_id i) rows
  pub amount : units item_id rows' + (if v.is_infinity then 0 else 1) ≡ units item_id rows
  pub distinct : IsStock rows'

before-Precedes :
    (v w : ItemValue) → (before v w ≡ true → Precedes v w) × (before v w ≡ false → Precedes w v)
before-Precedes v w = go v.is_infinity w.is_infinity
  where
    go :
        (x y : Bool)
        → ((if x then not y || ltb v.id w.id else not y && ltb v.id w.id) ≡ true
            → ((x ≡ true) × (y ≡ false)) ⊎ ((x ≡ y) × (v.id ≤ w.id)))
          × ((if x then not y || ltb v.id w.id else not y && ltb v.id w.id) ≡ false
              → ((y ≡ true) × (x ≡ false)) ⊎ ((y ≡ x) × (w.id ≤ v.id)))
    go true true = (λ h. inr (refl, ground arith), λ h. inr (refl, ground arith))
    go true false = (λ h. inl (refl, refl), λ h. absurd (cc))
    go false true = (λ h. absurd (cc), λ h. inl (refl, refl))
    go false false = (λ h. inr (refl, ground arith), λ h. inr (refl, ground arith))

Precedes-trans : (u v w : ItemValue) → Precedes u v → Precedes v w → Precedes u w
Precedes-trans u v w (inl a) (inl b) = inl (a.0, b.1)
Precedes-trans u v w (inl a) (inr b) = inl (a.0, sym b.0 ∙ a.1)
Precedes-trans u v w (inr a) (inl b) = inl (a.0 ∙ b.0, b.1)
Precedes-trans u v w (inr a) (inr b) = inr (a.0 ∙ b.0, omega (arith, a.1, b.1))

All-Precedes :
    (u v : ItemValue) (vs : List ItemValue)
    → Precedes u v
    → All (Precedes v) vs
    → All (Precedes u) vs
All-Precedes u v [] p h = tt
All-Precedes u v (w ∷ vs) p h = (Precedes-trans u v w p h.0, All-Precedes u v vs p h.1)

least-Precedes : (vs : List ItemValue) {v : ItemValue} → least vs ≡ some v → All (Precedes v) vs
unfolding least
least-Precedes [] h = tt
least-Precedes (x ∷ vs) {v} h = elim (Option-cases (least vs)) [
  | inl e ↦ only (ground arith) (least-none vs e)
  | inr (w, e) ↦ elim (Bool-cases (before w x)) [
    | inl b ↦
        let q : w ≡ v = ground arith in
        subst (λ y. All (Precedes y) (x ∷ vs)) q ((before-Precedes w x).0 b, least-Precedes vs e)
    | inr b ↦
        let q : x ≡ v = ground arith in
        subst (λ y. All (Precedes y) (x ∷ vs)) q
          (
            inr (refl, omega arith),
            All-Precedes x w vs ((before-Precedes w x).1 b) (least-Precedes vs e),
          )
  ]
]
  where
    least-none : (vs : List ItemValue) → least vs ≡ none → vs ≡ []
    least-none [] e = refl
    least-none (y ∷ ys) e = elim (Option-cases (least ys)) [
      | inl k ↦ absurd (ground arith)
      | inr (w, k) ↦ absurd (ground arith)
    ]

    only : x ≡ v → vs ≡ [] → All (Precedes v) (x ∷ vs)
    only q e =
        subst (λ ws. All (Precedes v) (x ∷ ws)) (sym e)
          (subst (λ y. Precedes v y) (sym q) (inr (refl, omega arith)), tt)

select-Comes :
    (item_id : ℕ) (v : ItemValue) (rows : List ItemValue)
    → All (Precedes v) (select_where (is_stock_of item_id) rows)
    → All (Comes item_id v) rows
select-Comes i v [] h = tt
select-Comes i v (w ∷ rows) h = elim (Bool-cases (is_stock_of i w)) [
  | inl e ↦ let k = rw e at h in (inr k.0, select-Comes i v rows k.1)
  | inr e ↦ (inl (ground arith), select-Comes i v rows (rw e at h))
]

first-row :
    (v : ItemValue) (vs : List ItemValue)
    → IsStock vs
    → In v vs
    → first (has_value_id v.id) vs ≡ some v
first-row v [] s m = absurd m
first-row v (x ∷ vs) s (inl e) = ground arith
first-row v (x ∷ vs) s (inr m) = ground (arith, In-Fresh vs v s.1 m, first-row v vs s.2 m)

first-delete_self :
    (i : ℕ) (vs : List ItemValue) → first (has_value_id i) (delete_where (has_value_id i) vs) ≡ none
first-delete_self i [] = refl
first-delete_self i (x ∷ vs) = ground (arith, first-delete_self i vs)

first-delete_other :
    (i j : ℕ) (vs : List ItemValue)
    → i ≢ j
    → first (has_value_id j) (delete_where (has_value_id i) vs) ≡ first (has_value_id j) vs
first-delete_other i j [] n = refl
first-delete_other i j (x ∷ vs) n = ground (arith, first-delete_other i j vs n)

first-less_other :
    (i j : ℕ) (vs : List ItemValue)
    → i ≢ j
    → first (has_value_id j) (update_where (has_value_id i) one_less vs) ≡ first (has_value_id j) vs
first-less_other i j vs n =
    first-update_other (has_value_id i) (has_value_id j) one_less (λ a. refl) (λ a e. ground arith)
      vs

In-filled : (v : ItemValue) (vs : List ItemValue) → IsStock vs → In v vs → 1 ≤ v.quantity
In-filled v [] s m = absurd m
In-filled v (x ∷ vs) s (inl e) = ground arith
In-filled v (x ∷ vs) s (inr m) = In-filled v vs s.2 m

consume-row :
    (v : ItemValue) (rows : List ItemValue)
    → IsStock rows
    → In v rows
    → first (has_value_id v.id) (consume v rows) ≡ left_of v
unfolding consume
consume-row v rows s m = ground (
  arith,
  first-row v rows s m,
  first-update_self (has_value_id v.id) one_less (λ a. refl) rows (first-row v rows s m),
  first-delete_self v.id rows,
  In-filled v rows s m,
)

consume-others :
    (v : ItemValue) (rows : List ItemValue) (i : ℕ)
    → v.id ≢ i
    → first (has_value_id i) (consume v rows) ≡ first (has_value_id i) rows
unfolding consume
consume-others v rows i n = elim (Bool-cases v.is_infinity) [
  | inl e ↦ rw e refl
  | inr e ↦ elim (Bool-cases (ltb 1 v.quantity)) [
    | inl c ↦ rw (e, c) (first-less_other v.id i rows n)
    | inr c ↦ rw (e, c) (first-delete_other v.id i rows n)
  ]
]

consume-unlimited :
    (v : ItemValue) (rows : List ItemValue) → v.is_infinity ≡ true → consume v rows ≡ rows
unfolding consume
consume-unlimited v rows e = rw e refl

consume-amount :
    (item_id : ℕ) (v : ItemValue) (rows : List ItemValue)
    → IsStock rows
    → In v rows
    → is_stock_of item_id v ≡ true
    → units item_id (consume v rows) + (if v.is_infinity then 0 else 1) ≡ units item_id rows
consume-amount i v rows s m t = elim (Bool-cases v.is_infinity) [
  | inl e ↦ simp e (unlimited e)
  | inr e ↦ simp e (consume-units i v rows s m t e)
]
  where
    unlimited : v.is_infinity ≡ true → units i (consume v rows) + 0 ≡ units i rows
    unlimited e = rw (consume-unlimited v rows e) (omega arith)

-- The row that the query picks, consumed, is a delivery.
pub consume-Taken :
    (item_id : ℕ) (rows : List ItemValue) {v : ItemValue}
    → IsStock rows
    → pick_value item_id rows ≡ some v
    → Taken item_id v rows (consume v rows)
unfolding pick_value
consume-Taken i rows {v} s h =
    let (m, t) = pick_value-In i rows h in
    record {
      present = m;
      product = ground arith;
      earliest = select-Comes i v rows (least-Precedes _ h);
      row = consume-row v rows s m;
      others = λ j n. consume-others v rows j n;
      amount = consume-amount i v rows s m t;
      distinct = consume-IsStock v rows s m;
    }
