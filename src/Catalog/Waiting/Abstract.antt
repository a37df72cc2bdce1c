-- ===== src/Catalog/Waiting/Abstract.antt =====
-- The waiting list as a set of pairs of a user and a product, and a proof that the rows implement it.
use telegramshop_zijjn.Prelude.{
  ℕ, ◌==◌, ◌≤◌, ◌≡◌, refl, sym, subst, ◌∙◌, arith, if◌then◌else◌, Bool, true, false, not, ◌&&◌,
  ◌||◌, Option, none, some, List, [], ◌∷◌, Text, exists, count, map, In, select_where, delete_where,
  option_map, Bool-cases, inl, inr,
}
use telegramshop_zijjn.Prelude.Rows.{select-In}
use telegramshop_zijjn.Prelude.Members.{exists-In, In-exists, unique-In, delete_where-cong}
use telegramshop_zijjn.Models.{StockSubscription}
use telegramshop_zijjn.Store.{Store}
use telegramshop_zijjn.Catalog.{good_named}
use telegramshop_zijjn.Catalog.Waiting.{
  SubscribeReply, item_not_found, already_subscribed, subscribed, waits, is_for, subscribe_to_stock,
  unsubscribe_from_stock, user_of, among, pop_stock_subscribers,
}

pub data Request : Type 0 where
  subscribe unsubscribe : ℕ → Text → Request
  pop : Text → Request

-- An answer, the users of a claim as how often each is named.
pub data Answer : Type 0 where
  replied : SubscribeReply → Answer
  dropped : Bool → Answer
  claimed : (ℕ → ℕ) → Answer

-- The set, by its members.
abbrev pub Waiting : Type 0
Waiting = ℕ → ℕ → Bool

abbrev pub is_pair : ℕ → ℕ → ℕ → ℕ → Bool
is_pair user_id item_id u i = user_id == u && item_id == i

unfoldable pub ask : Request → Option ℕ → Waiting → Answer × Waiting
ask (subscribe user_id name) none w = (replied item_not_found, w)
ask (subscribe user_id name) (some item) w = (
  replied (if w user_id item then already_subscribed else subscribed),
  λ u i. w u i || is_pair user_id item u i,
)
ask (unsubscribe user_id name) none w = (dropped false, w)
ask (unsubscribe user_id name) (some item) w =
    (dropped (w user_id item), λ u i. w u i && not (is_pair user_id item u i))
ask (pop name) none w = (claimed (λ u. 0), w)
ask (pop name) (some item) w =
    (claimed (λ u. if w u item then 1 else 0), λ u i. w u i && not (item == i))

-- What the request names, and what the code does.
abbrev pub name_of : Request → Text
name_of (subscribe user_id name) = name
name_of (unsubscribe user_id name) = name
name_of (pop name) = name

abbrev pub item_of : Request → Store → Option ℕ
item_of r db = option_map (λ g. g.id) (good_named (name_of r) db)

abbrev pub times : List ℕ → ℕ → ℕ
times users u = count (λ v. v == u) users

unfoldable pub serve : Request → Store → Answer × Store
serve (subscribe user_id name) db = let r = subscribe_to_stock user_id name db in (replied r.0, r.1)
serve (unsubscribe user_id name) db =
    let r = unsubscribe_from_stock user_id name db in (dropped r.0, r.1)
serve (pop name) db = let r = pop_stock_subscribers name db in (claimed (times r.0), r.1)

abbrev pub has_row_id : ℕ → StockSubscription → Bool
has_row_id i s = s.id == i

-- No pair and no id stands twice, and the ids are below the next one.
pub record IsWaitingList (db : Store) : Type 0 where
  pub pairs : (u i : ℕ) → count (waits u i) db.stock_subscriptions ≤ 1
  pub ids : (i : ℕ) → count (has_row_id i) db.stock_subscriptions ≤ 1
  pub fresh : (i : ℕ) → db.next_id ≤ i → count (has_row_id i) db.stock_subscriptions ≡ 0

pub exists-delete_waits :
    (v j u i : ℕ) (xs : List StockSubscription)
    → exists (waits u i) (delete_where (waits v j) xs)
      ≡ (exists (waits u i) xs && not (is_pair v j u i))
exists-delete_waits v j u i [] = refl
exists-delete_waits v j u i (x ∷ xs) = ground (arith, exists-delete_waits v j u i xs)

pub exists-delete_for :
    (j u i : ℕ) (xs : List StockSubscription)
    → exists (waits u i) (delete_where (is_for j) xs) ≡ (exists (waits u i) xs && not (j == i))
exists-delete_for j u i [] = refl
exists-delete_for j u i (x ∷ xs) = ground (arith, exists-delete_for j u i xs)

pub times-select :
    (j u : ℕ) (xs : List StockSubscription)
    → times (map user_of (select_where (is_for j) xs)) u ≡ count (waits u j) xs
times-select j u [] = refl
times-select j u (x ∷ xs) = ground (arith, times-select j u xs)

In-select :
    (q : StockSubscription → Bool) (xs : List StockSubscription) {a : StockSubscription}
    → q a ≡ true
    → In a xs
    → In a (select_where q xs)
In-select q [] k h = absurd h
In-select q (x ∷ xs) k (inl e) = let c = subst (λ y. q y ≡ true) (sym e) k in rw c (inl e)
In-select q (x ∷ xs) {a} k (inr h) = elim (Bool-cases (q x)) [
  | inl c ↦ rw c (inr (In-select q xs k h))
  | inr c ↦ rw c (In-select q xs k h)
]

-- The rows whose ids were selected are those of the product.
pub delete_among :
    (j : ℕ) (xs : List StockSubscription)
    → ((i : ℕ) → count (has_row_id i) xs ≤ 1)
    → delete_where (among (select_where (is_for j) xs)) xs ≡ delete_where (is_for j) xs
delete_among j xs u = delete_where-cong (among (select_where (is_for j) xs)) (is_for j) xs each
  where
    each : (s : StockSubscription) → In s xs → among (select_where (is_for j) xs) s ≡ is_for j s
    each s h = elim (Bool-cases (is_for j s)) [
      | inl e ↦
          In-exists (λ r. r.id == s.id) (select_where (is_for j) xs) (ground arith)
            (In-select (is_for j) xs e h)
          ∙ sym e
      | inr e ↦ elim (Bool-cases (among (select_where (is_for j) xs) s)) [
        | inr c ↦ c ∙ sym e
        | inl c ↦
            let r = exists-In (λ r. r.id == s.id) (select_where (is_for j) xs) c in
            let k = select-In (is_for j) xs r.1 in
            let q = unique-In (has_row_id s.id) xs (u s.id) r.2 (ground arith) k.0 h in
            let z = subst (λ y. is_for j y ≡ true) q k.1 in absurd (cc)
      ]
    ]
