-- ===== src/Transactions/Fulfil/Laws.antt =====
-- A line that is filled delivers its quantity exactly.
use telegramshop_zijjn.Prelude.{
  ℕ, ◌+◌, ◌-◌, min, ◌≡◌, arith, some, List, [], ◌∷◌, length, length-append, length-replicate,
  replicate, first, Option-cases, inl, inr,
}
use telegramshop_zijjn.Models.{ItemValue}
use telegramshop_zijjn.Store.{ok}
use telegramshop_zijjn.Transactions.Fulfil.{
  Claim, claim_rows, fulfil, delivery_of, reduce, rows_for, is_infinite_of, claim_limited, complete,
}

-- What was asked for is delivered or remains.
pub claim_rows-length :
    (remaining : ℕ) (rows values : List ItemValue)
    → length (claim_rows remaining rows values).deliveries
        + (claim_rows remaining rows values).remaining
      ≡ remaining
unfolding claim_rows
claim_rows-length n [] values = omega arith
claim_rows-length n (row ∷ rows) values = ground (
  arith,
  claim_rows-length (n - min row.quantity n) rows (reduce row (min row.quantity n) values),
  length-append (replicate (min row.quantity n) (delivery_of row)) [],
  length-append (replicate (min row.quantity n) (delivery_of row))
      (claim_rows (n - min row.quantity n) rows
        (reduce row (min row.quantity n) values)).deliveries,
  length-replicate (min row.quantity n) (delivery_of row),
)

limited-length :
    (n : ℕ) (rows values : List ItemValue) {c : Claim}
    → claim_limited n rows values ≡ ok (some c)
    → length c.deliveries ≡ n
limited-length n [] values h = absurd (cc)
limited-length n (r ∷ rows) values {c} h =
    let q : (claim_rows n (r ∷ rows) values ≡ c) × (c.remaining ≡ 0) =
      done (claim_rows n (r ∷ rows) values) h in
    ground (arith, claim_rows-length n (r ∷ rows) values, q.0, q.1)
  where
    done : (d : Claim) {c : Claim} → complete d ≡ ok (some c) → (d ≡ c) × (c.remaining ≡ 0)
    done d h = ground arith

-- A line that is filled delivers its quantity, from unlimited stock or from limited stock.
pub fulfil-length :
    (item_id quantity : ℕ) (values : List ItemValue) {c : Claim}
    → fulfil item_id quantity values ≡ ok (some c)
    → length c.deliveries ≡ quantity
unfolding fulfil
fulfil-length i n values {c} h = elim (Option-cases (first (is_infinite_of i) values)) [
  | inl e ↦ limited-length n (rows_for i n values) values {c = c} (ground arith)
  | inr (v, e) ↦ ground (arith, length-replicate n (delivery_of v))
]
