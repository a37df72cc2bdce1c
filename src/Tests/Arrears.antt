-- ===== src/Tests/Arrears.antt =====
-- Payments of the small shop, one of them credited.
use telegramshop_zijjn.Prelude.{◌==◌, refl, arith, if◌then◌else◌, [], ◌∷◌, codes, pos}
use telegramshop_zijjn.Models.{Payment, pending, succeeded}
use telegramshop_zijjn.Store.{World}
use telegramshop_zijjn.Transactions.Payment.Settled.{IsSettled}
use telegramshop_zijjn.Recovery.{Answer, paid, ended, recover_pending_payments}
use telegramshop_zijjn.Recovery.Rounds.{recover_pending_payments-IsSettled}
use telegramshop_zijjn.Tests.{shop, setting}

abbrev credited : Payment
credited = record {
  id = 41;
  provider = codes "payos";
  external_id = codes "77";
  user_id = 7;
  amount = pos 2000;
  currency = codes "VND";
  status = succeeded;
  created_at = 10;
}

abbrev open_payment : Payment
open_payment = record credited {
  id = 42;
  external_id = codes "78";
  status = pending;
  created_at = 3000;
}

abbrev old_payment : Payment
old_payment = record credited { id = 43; external_id = codes "79"; status = pending }

abbrev books : World
books = record {
  store = record shop { payments = credited ∷ open_payment ∷ old_payment ∷ [] };
  tasks = [];
}

abbrev answers : Payment → Answer
answers p = if p.id == 42 then paid else ended

recovery_example :
    IsSettled
      (codes "payos")
      (codes "77")
      (recover_pending_payments 4000 (λ p. setting) (pos 5) answers books).store
recovery_example =
    recover_pending_payments-IsSettled 4000 (λ p. setting) (pos 5) answers (codes "payos")
      (codes "77") books (λ i. ground arith)
      (record { payment = credited; found = refl; done = refl })
