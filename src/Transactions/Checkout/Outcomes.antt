-- ===== src/Transactions/Checkout/Outcomes.antt =====
-- How a checkout ends, whichever attempt decides it.
use telegramshop_zijjn.Prelude.{
  ℕ, zero, suc, ltb, ◌&&◌, ◌≡◌, ◌≤◌, refl, ◌∙◌, sym, ap, subst, arith, Option, some, List, [], ◌∷◌,
  ◌++◌, ℤ, ◌≤ℤ◌, All, Option-cases, Bool-cases, inl, inr, ◌⊎◌, Bool, true, false, select_where,
  delete_where,
}
use telegramshop_zijjn.Models.{User, CartItem, PromoCode}
use telegramshop_zijjn.Store.{
  Store, World, Result, ok, err, Result-cases, log_audit, abort, integrity, operational, other,
  schedule,
}
use telegramshop_zijjn.Store.Commit.{session-eq-ok}
use telegramshop_zijjn.Transactions.Accounts.{success, failed, transaction_error, find_user, charge}
use telegramshop_zijjn.Transactions.Checkout.{
  Round, Delivered, Outcome, bought, cart_items_unavailable, deliver_lines, record_promos,
  clear_lines, remove_lines, is_changed, purchase_lines, conclude_lines, cart_of, checkout_block,
  checkout_failed, raised, unavailable, CheckoutReply, settle_checkout, checkout_rounds,
  checkout_cart_transaction, retry_if,
}
use telegramshop_zijjn.Transactions.Checkout.Resolve.{
  Line, Progress, start, resolve_lines, is_line_of,
}
use telegramshop_zijjn.Transactions.Checkout.Resolve.Totals.{
  sum_lines, IsMatched, IsSound, resolve_lines-IsSound,
}
use telegramshop_zijjn.Transactions.Checkout.Laws.{
  paid, rows_of, deliver_lines-IsDelivered, record_promos-keeps,
}

-- The lines of a cart are not empty: ck_cart_items_quantity_positive.
abbrev pub IsCart : List CartItem → Type 0
IsCart = All (λ ci. 1 ≤ ci.quantity)

IsCart-select :
    (p : CartItem → Bool) (cis : List CartItem) → IsCart cis → IsCart (select_where p cis)
IsCart-select p [] c = tt
IsCart-select p (ci ∷ cis) c = ground (arith, IsCart-select p cis c.1)

select-delete :
    (p : CartItem → Bool) (cis : List CartItem) → select_where p (delete_where p cis) ≡ []
select-delete p [] = refl
select-delete p (ci ∷ cis) = ground (arith, select-delete p cis)

-- What a successful checkout writes.
pub record CheckedOut (user_id : ℕ) (expected : Option ℤ) (results : List Delivered)
    (db db' : Store) : Type 0 where
  pub user : User
  pub found : find_user user_id db ≡ some user
  pub agreed : is_changed expected (paid results) ≡ false
  pub affordable : paid results ≤ℤ user.balance
  pub users : db'.users ≡ (charge user_id (paid results) db).users
  pub sales : db'.bought_goods ≡ db.bought_goods ++ rows_of results
  pub buyers : All (λ d. d.row.buyer_id ≡ some user_id) results
  pub cleared : cart_of user_id db' ≡ []

-- What a checkout with nothing to buy leaves: all but lines of the cart.
pub record CleanedUp (db db' : Store) : Type 0 where
  pub users : db'.users ≡ db.users
  pub stock : db'.item_values ≡ db.item_values
  pub sales : db'.bought_goods ≡ db.bought_goods
  pub promos : db'.promo_codes ≡ db.promo_codes

abbrev pub Ended : ℕ → Option ℤ → Store → Outcome × Store → Type 0
Ended user_id expected db (bought results, db') = CheckedOut user_id expected results db db'
Ended user_id expected db (cart_items_unavailable, db') = CleanedUp db db'

purchase_lines-guards :
    (r : Round) (user_id : ℕ) (expected : Option ℤ) (funds : ℤ) (ls : List Line) (total : ℤ)
    (ps : List PromoCode) (db : Store) {x : Outcome × Store}
    → purchase_lines r user_id expected funds ls total ps db ≡ ok x
    → (is_changed expected total ≡ false) × (total ≤ℤ funds)
unfolding purchase_lines
purchase_lines-guards r u expected funds ls total ps db h =
    elim (Bool-cases (is_changed expected total)) [
      | inl e ↦ absurd (ground arith)
      | inr e ↦ (e, ground arith)
    ]

-- The guards and the writes, from a database that differs from `db` in its stock and its cart.
purchase_lines-Ended :
    (r : Round) (user_id : ℕ) (expected : Option ℤ) (user : User) (ls : List Line) (total : ℤ)
    (ps : List PromoCode) (db1 db : Store) {x : Outcome × Store}
    → find_user user_id db ≡ some user
    → All IsMatched ls
    → sum_lines ls ≡ total
    → db1.users ≡ db.users
    → db1.bought_goods ≡ db.bought_goods
    → purchase_lines r user_id expected user.balance ls total ps db1 ≡ ok x
    → Ended user_id expected db x
unfolding purchase_lines clear_lines charge
purchase_lines-Ended r u expected user ls total ps db1 db {x} f m t eu eb h =
    elim (Result-cases (deliver_lines r u ls 0 db1)) [
      | inl (e, n) ↦ absurd (ground arith)
      | inr (y, n) ↦
          let (i, q) = deliver_lines-IsDelivered r u ls 0 db1 {out = y.0} {db' = y.1} m n in
          let (kb, ku, kc) = record_promos-keeps u ps y.1 in
          let guards = purchase_lines-guards r u expected user.balance ls total ps db1 h in
          let z : Outcome × Store =
            (bought y.0, clear_lines u (charge u total (record_promos u ps y.1))) in
          let end : CheckedOut u expected y.0 db z.1 = record {
            user = user;
            found = f;
            agreed = rw (q ∙ t) guards.0;
            affordable = rw (q ∙ t) guards.1;
            users = rw (q ∙ t, ku, i.users, eu) refl;
            sales = kb ∙ i.sales ∙ ap (λ l. l ++ rows_of y.0) eb;
            buyers = i.buyers;
            cleared = select-delete (is_line_of u) (record_promos u ps y.1).cart_items;
          } in
          subst (Ended u expected db) {x = z} (ground arith) end
    ]

conclude_lines-Ended :
    (r : Round) (user_id : ℕ) (expected : Option ℤ) (user : User) (p : Progress) (db : Store)
    {x : Outcome × Store}
    → IsSound db p
    → find_user user_id db ≡ some user
    → conclude_lines r user_id expected user.balance p.purchases p.total_price p.promos_to_record
        (remove_lines p.items_to_remove p.db)
      ≡ ok x
    → Ended user_id expected db x
unfolding conclude_lines
conclude_lines-Ended r u expected user p db {x} s f h = go p.purchases refl h
  where
    kept_promos : p.db.promo_codes ≡ db.promo_codes
    kept_promos = ap (λ d. d.promo_codes) s.kept

    go :
        (ls : List Line)
        → p.purchases ≡ ls
        → conclude_lines r u expected user.balance ls p.total_price p.promos_to_record
            (remove_lines p.items_to_remove p.db)
          ≡ ok x
        → Ended u expected db x
    go [] e k =
        subst (Ended u expected db)
          {x = (cart_items_unavailable, remove_lines p.items_to_remove p.db)} (ground arith)
          (record {
            users = ap (λ d. d.users) s.kept;
            stock = s.idle e;
            sales = ap (λ d. d.bought_goods) s.kept;
            promos = kept_promos;
          })
    go (l ∷ ls) e k =
        purchase_lines-Ended r u expected user (l ∷ ls) p.total_price p.promos_to_record
          (remove_lines p.items_to_remove p.db) db f (subst (All IsMatched) e s.matched)
          (ap sum_lines (sym e) ∙ s.total) (ap (λ d. d.users) s.kept)
          (ap (λ d. d.bought_goods) s.kept) k

start-IsSound : (db : Store) → IsSound db (start db)
start-IsSound db = record { matched = tt; total = refl; idle = λ _. refl; kept = refl }

-- What a reply says of the database.
abbrev pub CheckoutOutcome : ℕ → Option ℤ → World → CheckoutReply → Type 0
CheckoutOutcome user_id expected w (success results, w') =
    CheckedOut user_id expected results w.store w'.store
CheckoutOutcome user_id expected w (failed (raised code), w') = w' ≡ w
CheckoutOutcome user_id expected w (failed unavailable, w') =
    CleanedUp w.store w'.store × (w'.tasks ≡ w.tasks)
CheckoutOutcome user_id expected w (transaction_error, w') =
    (w'.tasks ≡ w.tasks)
    × ((w'.store ≡ w.store) ⊎ (w'.store ≡ log_audit (checkout_failed user_id) w.store))

retry-CheckoutOutcome :
    (b : Bool) (user_id : ℕ) (expected : Option ℤ) (again : CheckoutReply) (w : World)
    → CheckoutOutcome user_id expected w again
    → CheckoutOutcome user_id expected w (retry_if b user_id again w)
retry-CheckoutOutcome true u ex again w k = k
retry-CheckoutOutcome false u ex again w k = (refl, inr refl)

-- The whole block.
checkout_block-Ended :
    (r : Round) (user_id : ℕ) (expected : Option ℤ) (db : Store) {x : Outcome × Store}
    → IsCart db.cart_items
    → checkout_block r user_id expected db ≡ ok x
    → Ended user_id expected db x
unfolding checkout_block
checkout_block-Ended r u expected db {x} c h = elim (Option-cases (find_user u db)) [
  | inl e ↦ absurd (ground arith)
  | inr (user, f) ↦ elim (Result-cases (resolve_lines r.now u (cart_of u db) (start db))) [
    | inl (e, n) ↦ absurd (ground arith)
    | inr (p, n) ↦
        let s =
          resolve_lines-IsSound r.now u (cart_of u db) db (start db)
            (IsCart-select (is_line_of u) db.cart_items c) (start-IsSound db) n in
        conclude_lines-Ended r u expected user p db s f (ground arith)
  ]
]

settle-CheckoutOutcome :
    (attempt user_id : ℕ) (expected : Option ℤ) (r : Result (Outcome × Store))
    (again : CheckoutReply) (w : World)
    → ((x : Outcome × Store) → r ≡ ok x → Ended user_id expected w.store x)
    → CheckoutOutcome user_id expected w again
    → CheckoutOutcome user_id expected w (settle_checkout attempt user_id r again w)
unfolding settle_checkout schedule
settle-CheckoutOutcome attempt u ex (ok (bought rs, db)) again w h k = h _ refl
settle-CheckoutOutcome attempt u ex (ok (cart_items_unavailable, db)) again w h k = (h _ refl, refl)
settle-CheckoutOutcome attempt u ex (err (abort code)) again w h k = refl
settle-CheckoutOutcome attempt u ex (err (integrity b)) again w h k =
    retry-CheckoutOutcome (b && ltb attempt 2) u ex again w k
settle-CheckoutOutcome attempt u ex (err (operational b)) again w h k =
    retry-CheckoutOutcome (b && ltb attempt 2) u ex again w k
settle-CheckoutOutcome attempt u ex (err other) again w h k = (refl, inr refl)

checkout_rounds-CheckoutOutcome :
    (remaining attempt : ℕ) (env : ℕ → Round) (user_id : ℕ) (expected : Option ℤ) (w : World)
    → IsCart w.store.cart_items
    → CheckoutOutcome user_id expected w (checkout_rounds remaining attempt env user_id expected w)
unfolding checkout_rounds
checkout_rounds-CheckoutOutcome zero attempt env u ex w c = (refl, inl refl)
checkout_rounds-CheckoutOutcome (suc n) attempt env u ex w c =
    settle-CheckoutOutcome attempt u ex _ _ w
      (λ x e.
        checkout_block-Ended (env attempt) u ex w.store c
          (session-eq-ok (env attempt).fault _ w.store e))
      (checkout_rounds-CheckoutOutcome n (suc attempt) env u ex w c)

-- Whatever the database does in the three attempts, for carts without empty lines: on success each
-- delivered unit is one sale of this user, the prices of the sales add up to the total, which is the
-- expected one if one was given and is covered by the balance, the user's row is charged that total,
-- no other row of a user changes, and the cart is empty. "cart_items_unavailable" changes neither
-- users, nor stock, nor sales, nor promo codes. A code that was raised leaves everything as it was,
-- and "transaction_error" adds at most one audit entry.
pub checkout_cart_transaction-CheckoutOutcome :
    (env : ℕ → Round) (user_id : ℕ) (expected : Option ℤ) (w : World)
    → IsCart w.store.cart_items
    → CheckoutOutcome user_id expected w (checkout_cart_transaction env user_id expected w)
unfolding checkout_cart_transaction
checkout_cart_transaction-CheckoutOutcome env = checkout_rounds-CheckoutOutcome 3 0 env
