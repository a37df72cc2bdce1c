-- ===== src/Transactions/Checkout/Resolve/Totals.antt =====
-- The prices of the lines: what the loop over the cart adds up is what the units cost.
use telegramshop_zijjn.Prelude.{
  ℕ, ◌≡◌, ◌≢◌, ◌≤◌, refl, ◌∙◌, sym, ap, subst, arith, none, some, List, [], ◌∷◌, ◌++◌, ℤ, pos, ◌+ℤ◌,
  int_laws, length, All, Option-cases, inl, inr, first,
}
use telegramshop_zijjn.Prelude.Rows.{All-append}
use telegramshop_zijjn.Models.{Good, CartItem, PromoCode}
use telegramshop_zijjn.Pricing.Split.{sum_ℤ, split_amount-sum, split_amount-length}
use telegramshop_zijjn.Store.{Store, ok, Result-cases}
use telegramshop_zijjn.Transactions.Fulfil.{Claim, fulfil}
use telegramshop_zijjn.Transactions.Fulfil.Laws.{fulfil-length}
use telegramshop_zijjn.Transactions.Checkout.Resolve.{
  Line, Progress, resolve_line, resolve_lines, price_line, joined, dropped, has_good_id,
}

abbrev pub sum_lines : List Line → ℤ
sum_lines [] = pos 0
sum_lines (l ∷ ls) = sum_ℤ l.unit_prices +ℤ sum_lines ls

-- Each unit of the line has its price.
abbrev pub IsMatched : Line → Type 0
IsMatched l = length l.deliveries ≡ length l.unit_prices

-- The variables of the loop agree, and of the database only the stock has changed.
pub record IsSound (db : Store) (p : Progress) : Type 0 where
  pub matched : All IsMatched p.purchases
  pub total : sum_lines p.purchases ≡ p.total_price
  pub idle : p.purchases ≡ [] → p.db.item_values ≡ db.item_values
  pub kept : p.db ≡ record db { item_values = p.db.item_values }

sum_lines-append :
    (ls : List Line) (l : Line) → sum_lines (ls ++ l ∷ []) ≡ sum_lines ls +ℤ sum_ℤ l.unit_prices
sum_lines-append [] l = grind int_laws
sum_lines-append (x ∷ ls) l = grind (int_laws, sum_lines-append ls l)

longer : (ls : List Line) (l : Line) → ls ++ l ∷ [] ≢ []
longer [] l h = cc
longer (x ∷ ls) l h = cc

joined-IsSound :
    (db : Store) (goods : Good) (qty : ℕ) (c : Claim) (price : ℤ) (ps : List PromoCode)
    (p : Progress)
    → 1 ≤ qty
    → length c.deliveries ≡ qty
    → IsSound db p
    → IsSound db (joined goods qty c price ps p)
joined-IsSound db goods qty c price ps p q e s = record {
  matched =
      All-append IsMatched p.purchases _ s.matched (e ∙ sym (split_amount-length price qty), tt);
  total = sum_lines-append p.purchases _ ∙ rw (split_amount-sum price qty q, s.total) refl;
  idle = λ n. absurd (longer p.purchases _ n);
  kept = ap {A = Store} (λ d. record d { item_values = c.item_values }) s.kept;
}

dropped-IsSound : (db : Store) (i : ℕ) (p : Progress) → IsSound db p → IsSound db (dropped i p)
dropped-IsSound db i p s = record {
  matched = s.matched;
  total = s.total;
  idle = s.idle;
  kept = s.kept;
}

resolve_line-IsSound :
    (now user_id : ℕ) (ci : CartItem) (db : Store) (p : Progress) {p' : Progress}
    → 1 ≤ ci.quantity
    → IsSound db p
    → resolve_line now user_id ci p ≡ ok p'
    → IsSound db p'
unfolding resolve_line
resolve_line-IsSound now user_id ci db p {p'} q s h =
    elim (Option-cases (first (has_good_id ci.item_id) p.db.goods)) [
      | inl e ↦
          subst (IsSound db) {x = dropped ci.id p} (ground arith) (dropped-IsSound db ci.id p s)
      | inr (g, e) ↦ elim (Result-cases (fulfil g.id ci.quantity p.db.item_values)) [
        | inl (f, n) ↦ absurd (ground arith)
        | inr (none, n) ↦
            subst (IsSound db) {x = dropped ci.id p} (ground arith) (dropped-IsSound db ci.id p s)
        | inr (some c, n) ↦
            elim (Result-cases
              (price_line now user_id g ci.quantity ci.promo_code p.promos_to_record p.db)) [
                | inl (f, m) ↦ absurd (ground arith)
                | inr (r, m) ↦
                    subst (IsSound db) {x = joined g ci.quantity c r.0 r.1 p} (ground arith) (
                      joined-IsSound db g ci.quantity c r.0 r.1 p q
                        (fulfil-length g.id ci.quantity p.db.item_values n) s)
              ]
      ]
    ]

pub resolve_lines-IsSound :
    (now user_id : ℕ) (cis : List CartItem) (db : Store) (p : Progress) {p' : Progress}
    → All (λ ci. 1 ≤ ci.quantity) cis
    → IsSound db p
    → resolve_lines now user_id cis p ≡ ok p'
    → IsSound db p'
unfolding resolve_lines
resolve_lines-IsSound now user_id [] db p q s h = subst (IsSound db) {x = p} (ground arith) s
resolve_lines-IsSound now user_id (ci ∷ cis) db p q s h =
    elim (Result-cases (resolve_line now user_id ci p)) [
      | inl (f, n) ↦ absurd (ground arith)
      | inr (r, n) ↦
          resolve_lines-IsSound now user_id cis db r q.1
            (resolve_line-IsSound now user_id ci db p q.0 s n) (ground arith)
    ]
