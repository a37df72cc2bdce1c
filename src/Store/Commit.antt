-- ===== src/Store/Commit.antt =====
-- A transaction that commits has run its block.
use telegramshop_zijjn.Prelude.{◌≡◌, arith}
use telegramshop_zijjn.Store.{Store, session, Fault, calm, early, late, Result, ok}

pub session-eq-ok :
    {A : Type 0} (f : Fault) (body : Store → Result (A × Store)) (db : Store) {r : A × Store}
    → session f body db ≡ ok r
    → body db ≡ ok r
unfolding session
session-eq-ok calm body db h = h
session-eq-ok (early e) body db h = cc
session-eq-ok (late e) body db {r} h = ground arith
