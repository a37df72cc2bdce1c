-- ===== src/Catalog/Waiting/Refinement.antt =====
-- The rows of the waiting list implement the set.
use telegramshop_zijjn.Prelude.{
  ℕ, ◌≡◌, refl, subst, ap, ◌∙◌, fun_ext, arith, Bool, true, false, ◌||◌, Option, none, some, List,
  [], ◌∷◌, ◌++◌, Text, exists, count, select_where, delete_where, option_map, Bool-cases, inl, inr,
}
use telegramshop_zijjn.Prelude.Rows.{exists-append}
use telegramshop_zijjn.Prelude.Counts.{count-append, count-delete}
use telegramshop_zijjn.Prelude.Members.{count-exists, ltb-count}
use telegramshop_zijjn.Models.{Good, StockSubscription}
use telegramshop_zijjn.Store.{Store}
use telegramshop_zijjn.Catalog.{good_named}
use telegramshop_zijjn.Catalog.References.{exists-count}
use telegramshop_zijjn.Catalog.Waiting.{
  waits, is_for, insert_waiting, subscribe_to_stock, drop_waiting, unsubscribe_from_stock, among,
  claim_waiting, pop_stock_subscribers, waiting,
}
use telegramshop_zijjn.Catalog.Waiting.Abstract.{
  Request, subscribe, unsubscribe, pop, Answer, replied, dropped, claimed, Waiting, is_pair, ask,
  item_of, times, serve, has_row_id, IsWaitingList, exists-delete_waits, exists-delete_for,
  times-select, delete_among,
}

-- One request: the code answers and changes as the set does.
record Refines (before after : Store) (answer : Answer) (specified : Answer × Waiting)
    : Type 0 where
  answers : answer ≡ specified.0
  state : waiting after ≡ specified.1
  listed : IsWaitingList after
  goods : after.goods ≡ before.goods

insert_waiting-Refines :
    (user_id : ℕ) (name : Text) (o : Option Good) (db : Store)
    → IsWaitingList db
    → Refines db
        (insert_waiting user_id o db).1
        (replied (insert_waiting user_id o db).0)
        (ask (subscribe user_id name) (option_map (λ g. g.id) o) (waiting db))
unfolding insert_waiting ask waiting
insert_waiting-Refines user_id name none db h = record {
  answers = refl;
  state = refl;
  listed = h;
  goods = refl;
}
insert_waiting-Refines user_id name (some g) db h =
    elim (Bool-cases (exists (waits user_id g.id) db.stock_subscriptions)) [
      | inl e ↦ rw e (record {
        answers = refl;
        state = fun_ext (λ u. fun_ext (λ i. there u i e));
        listed = h;
        goods = refl;
      })
      | inr e ↦ rw e (record {
        answers = refl;
        state = fun_ext (λ u. fun_ext (λ i. added u i));
        listed = record {
          pairs = λ u i.
              ground (
                arith,
                count-append (waits u i) db.stock_subscriptions row,
                h.pairs u i,
                free u i e,
              );
          ids = λ i.
              ground
                (arith, count-append (has_row_id i) db.stock_subscriptions row, h.ids i, h.fresh i);
          fresh = λ i b.
              let n = h.fresh i (omega (arith, b)) in
              ground (arith, count-append (has_row_id i) db.stock_subscriptions row);
        };
        goods = refl;
      })
    ]
  where
    row : StockSubscription
    row = record { id = db.next_id; user_id = user_id; item_id = g.id }

    there :
        (u i : ℕ)
        → exists (waits user_id g.id) db.stock_subscriptions ≡ true
        → exists (waits u i) db.stock_subscriptions
          ≡ (exists (waits u i) db.stock_subscriptions || is_pair user_id g.id u i)
    there u i e = elim (Bool-cases (is_pair user_id g.id u i)) [
      | inl c ↦
          let p : user_id ≡ u = ground arith in
          let q : g.id ≡ i = ground arith in
          let z =
            subst (λ k. exists (waits u k) db.stock_subscriptions ≡ true) q
              (subst (λ k. exists (waits k g.id) db.stock_subscriptions ≡ true) p e) in
          ground arith
      | inr c ↦ ground arith
    ]

    added :
        (u i : ℕ)
        → exists (waits u i) (db.stock_subscriptions ++ row ∷ [])
          ≡ (exists (waits u i) db.stock_subscriptions || is_pair user_id g.id u i)
    added u i = ground (arith, exists-append (waits u i) db.stock_subscriptions (row ∷ []))

    free :
        (u i : ℕ)
        → exists (waits user_id g.id) db.stock_subscriptions ≡ false
        → is_pair user_id g.id u i ≡ true
        → count (waits u i) db.stock_subscriptions ≡ 0
    free u i e c =
        let p : user_id ≡ u = ground arith in
        let q : g.id ≡ i = ground arith in
        exists-count (waits u i) db.stock_subscriptions (
          subst (λ k. exists (waits u k) db.stock_subscriptions ≡ false) q
            (subst (λ k. exists (waits k g.id) db.stock_subscriptions ≡ false) p e))

delete-IsWaitingList :
    (q : StockSubscription → Bool) (db : Store)
    → IsWaitingList db
    → IsWaitingList (record db { stock_subscriptions = delete_where q db.stock_subscriptions })
delete-IsWaitingList q db h = record {
  pairs = λ u i. omega (arith, h.pairs u i, count-delete (waits u i) q db.stock_subscriptions);
  ids = λ i. omega (arith, h.ids i, count-delete (has_row_id i) q db.stock_subscriptions);
  fresh = λ i b. omega (arith, h.fresh i b, count-delete (has_row_id i) q db.stock_subscriptions);
}

drop_waiting-Refines :
    (user_id : ℕ) (name : Text) (o : Option Good) (db : Store)
    → IsWaitingList db
    → Refines db
        (drop_waiting user_id o db).1
        (dropped (drop_waiting user_id o db).0)
        (ask (unsubscribe user_id name) (option_map (λ g. g.id) o) (waiting db))
unfolding drop_waiting ask waiting
drop_waiting-Refines user_id name none db h = record {
  answers = refl;
  state = refl;
  listed = h;
  goods = refl;
}
drop_waiting-Refines user_id name (some g) db h = record {
  answers = ap dropped (ltb-count (waits user_id g.id) db.stock_subscriptions);
  state = fun_ext (λ u. fun_ext (λ i. exists-delete_waits user_id g.id u i db.stock_subscriptions));
  listed = delete-IsWaitingList (waits user_id g.id) db h;
  goods = refl;
}

claim_waiting-Refines :
    (name : Text) (o : Option Good) (db : Store)
    → IsWaitingList db
    → Refines db
        (claim_waiting o db).1
        (claimed (times (claim_waiting o db).0))
        (ask (pop name) (option_map (λ g. g.id) o) (waiting db))
unfolding claim_waiting ask waiting
claim_waiting-Refines name none db h = record {
  answers = refl;
  state = refl;
  listed = h;
  goods = refl;
}
claim_waiting-Refines name (some g) db h = record {
  answers = ap claimed (
      fun_ext (λ u.
        times-select g.id u db.stock_subscriptions
        ∙ count-exists (waits u g.id) db.stock_subscriptions (h.pairs u g.id)));
  state = fun_ext (λ u. fun_ext (λ i.
      ap (exists (waits u i)) (delete_among g.id db.stock_subscriptions h.ids)
      ∙ exists-delete_for g.id u i db.stock_subscriptions));
  listed = delete-IsWaitingList (among (select_where (is_for g.id) db.stock_subscriptions)) db h;
  goods = refl;
}

serve-Refines :
    (r : Request) (db : Store)
    → IsWaitingList db
    → Refines db (serve r db).1 (serve r db).0 (ask r (item_of r db) (waiting db))
unfolding serve subscribe_to_stock unsubscribe_from_stock pop_stock_subscribers
serve-Refines (subscribe user_id name) db h =
    insert_waiting-Refines user_id name (good_named name db) db h
serve-Refines (unsubscribe user_id name) db h =
    drop_waiting-Refines user_id name (good_named name db) db h
serve-Refines (pop name) db h = claim_waiting-Refines name (good_named name db) db h

pub serve_all : List Request → Store → List Answer × Store
serve_all [] db = ([], db)
serve_all (r ∷ rs) db = let s = serve r db in let rest = serve_all rs s.1 in (s.0 ∷ rest.0, rest.1)

-- The same for the set; the products are those of the start.
pub ask_all : Store → List Request → Waiting → List Answer × Waiting
ask_all db [] w = ([], w)
ask_all db (r ∷ rs) w =
    let s = ask r (item_of r db) w in let rest = ask_all db rs s.1 in (s.0 ∷ rest.0, rest.1)

item_of-eq : (r : Request) (a b : Store) → a.goods ≡ b.goods → item_of r a ≡ item_of r b
unfolding good_named
item_of-eq r a b e = rw e refl

ask_all-eq :
    (a b : Store) (rs : List Request) (w : Waiting)
    → a.goods ≡ b.goods
    → ask_all a rs w ≡ ask_all b rs w
unfolding ask_all
ask_all-eq a b [] w e = refl
ask_all-eq a b (r ∷ rs) w e = rw (item_of-eq r a b e) (
    ap (λ x. ((ask r (item_of r b) w).0 ∷ x.0, x.1))
      (ask_all-eq a b rs (ask r (item_of r b) w).1 e))

-- In any sequence of subscriptions, cancellations and claims the rows behave as the set of pairs of a
-- user and a product: the answers are the same, the rows stand for the same set in the end, and each
-- user of a claim is named once.
pub serve_all-refines :
    (rs : List Request) (db : Store)
    → IsWaitingList db
    → ((serve_all rs db).0 ≡ (ask_all db rs (waiting db)).0)
      × (waiting (serve_all rs db).1 ≡ (ask_all db rs (waiting db)).1)
unfolding serve_all ask_all
serve_all-refines [] db h = (refl, refl)
serve_all-refines (r ∷ rs) db h =
    let s = serve-Refines r db h in
    let next = serve_all-refines rs (serve r db).1 s.listed in
    let same =
      ap (λ w. ask_all (serve r db).1 rs w) s.state ∙ ask_all-eq (serve r db).1 db rs _ s.goods in
    (
      ap (λ x. x ∷ (serve_all rs (serve r db).1).0) s.answers
          ∙ ap (λ x. (ask r (item_of r db) (waiting db)).0 ∷ x) (next.0 ∙ ap (λ x. x.0) same),
      next.1 ∙ ap (λ x. x.1) same,
    )
