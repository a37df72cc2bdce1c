-- ===== src/Tests/Wheel.antt =====
-- A spin in the small shop.
use telegramshop_zijjn.Prelude.{
  ◌≡◌, arith, true, none, some, [], ◌∷◌, List, Text, codes, pos, In, ◌≤ℤ◌, ℤ, inl,
}
use telegramshop_zijjn.Store.{calm}
use telegramshop_zijjn.Transactions.Solvency.{IsSolvent}
use telegramshop_zijjn.Gacha.{
  balance_reward, amount, GachaItem, GachaStore, Draw, IsDraw, first_of, spin_gacha_for_user,
}
use telegramshop_zijjn.Gacha.Outcome.{
  SpinOutcome, spin_gacha_for_user-SpinOutcome, spin_gacha_for_user-IsSolvent,
}
use telegramshop_zijjn.Tests.{shop, shop_funds}

abbrev coins : GachaItem
coins = record {
  id = 1;
  name = codes "coins";
  description = none;
  item_type = balance_reward;
  goods_id = none;
  reward_value = some (codes "20");
  stock_quantity = amount 3;
  is_active = true;
}

abbrev wheel : GachaStore
wheel = record {
  store = shop;
  settings = record { spin_price = pos 1000; is_active = true; selected_item_ids = none } ∷ [];
  items = coins ∷ [];
  wins = [];
}

-- The first of the pool is chosen, every amount is read as 20.
abbrev fixed_draw : Draw
fixed_draw = record {
  json_list = λ t. none;
  to_decimal = λ t. some (pos 2000);
  choices = first_of;
  code_number = 123456;
  unique_id = 5;
  now = 60;
  fault = calm;
}

fixed_draw_documented : IsDraw fixed_draw
fixed_draw_documented = record { positive = positive; chosen = chosen }
  where
    positive : (t : Text) (a : ℤ) → some (pos 2000) ≡ some a → pos 0 ≤ℤ a
    positive t a h = ground arith

    chosen : (xs : List GachaItem) (x : GachaItem) → first_of xs ≡ some x → In x xs
    chosen [] x h = absurd (cc)
    chosen (y ∷ ys) x h = inl (cc)

spin_example :
    SpinOutcome fixed_draw 7 wheel
      (spin_gacha_for_user fixed_draw 7 wheel).0
      (spin_gacha_for_user fixed_draw 7 wheel).1
spin_example = spin_gacha_for_user-SpinOutcome fixed_draw 7 wheel fixed_draw_documented

spin_funds_example : IsSolvent (spin_gacha_for_user fixed_draw 7 wheel).1.store.users
spin_funds_example =
    spin_gacha_for_user-IsSolvent fixed_draw 7 wheel fixed_draw_documented shop_funds
