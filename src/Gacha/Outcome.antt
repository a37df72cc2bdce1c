-- ===== src/Gacha/Outcome.antt =====
-- How a spin ends.
use telegramshop_zijjn.Prelude.{
  ℕ, ◌==◌, ◌≡◌, refl, sym, ap, subst, ◌∙◌, if◌then◌else◌, Bool, true, false, Option, none, some,
  List, [], ◌∷◌, ◌++◌, ℤ, pos, ◌-ℤ◌, ◌+ℤ◌, ltb_ℤ, ◌≤ℤ◌, int_laws, arith, Text, leb, length, In,
  select_where, update_where, Bool-cases, inl, inr,
}
use telegramshop_zijjn.Prelude.Rows.{select-In}
use telegramshop_zijjn.Models.{User}
use telegramshop_zijjn.Store.{Store, Fault, calm, early, late, Result, ok, err, ◌>>=◌}
use telegramshop_zijjn.Transactions.Accounts.{find_user, charge}
use telegramshop_zijjn.Transactions.Adjust.{add_operation}
use telegramshop_zijjn.Transactions.Solvency.{IsSolvent}
use telegramshop_zijjn.Gacha.{
  ItemType, balance_reward, promo_code, goods_item, text_gift, no_prize, other_type, GachaItem,
  GachaSettings, RewardDetail, GachaStore, Draw, IsDraw, Refusal, SpinReply, refused, won,
  or_default, parse_decimal, is_amount_char, whole, in_pool, selected, fulfil_prize, give_prize,
  draw_from, spin_pool, spin_selected, spin_user, spin_settings, first_of, spin_block, committed,
  under, win, has_gacha_id, drawn_once, spin_gacha_for_user,
}
use telegramshop_zijjn.Gacha.Spin.{reward_of, Won, Spun, give_prize-Paid}

module _ (d : Draw) (i : ℕ) (s : GachaStore) where
  module _ (settings : GachaSettings) (settings_found : first_of s.settings ≡ some settings)
      (active : settings.is_active ≡ true) (u : User) (found : find_user i s.store ≡ some u)
      (affordable : settings.spin_price ≤ℤ u.balance) (draw : IsDraw d) where
    give_prize-Spun :
        (x : GachaItem)
        → In x s.items
        → in_pool (selected d.json_list settings.selected_item_ids) x ≡ true
        → Spun d i s (give_prize d i settings.spin_price x s)
    unfolding give_prize
    give_prize-Spun x k p =
        go
          (fulfil_prize d i x x.item_type (
            add_operation i (pos 0 -ℤ whole settings.spin_price) d.now
              (charge i settings.spin_price s.store)))
          refl
      where
        go :
            (r : Result (RewardDetail × Store))
            → fulfil_prize d i x x.item_type (
                add_operation i
                  (pos 0 -ℤ whole settings.spin_price)
                  d.now
                  (charge i settings.spin_price s.store))
              ≡ r
            → Spun d i s (
                r >>= λ r. ok (
                  won x r.0,
                  record s {
                    store = r.1;
                    items = update_where (has_gacha_id x.id) drawn_once s.items;
                    wins = s.wins ++ win d i x r.0 ∷ [];
                  },
                ))
        go (err e) h = tt
        go (ok r) h = record {
          settings = settings;
          settings_found = settings_found;
          active = active;
          stocked = k;
          pooled = p;
          paid = give_prize-Paid d i settings.spin_price x u s.store found affordable h;
          items = refl;
          wins = refl;
        }

    spin_pool-Spun :
        (xs : List GachaItem)
        → xs ≡ select_where (in_pool (selected d.json_list settings.selected_item_ids)) s.items
        → Spun d i s (spin_pool d i settings.spin_price xs s)
    unfolding spin_pool draw_from
    spin_pool-Spun [] e = refl
    spin_pool-Spun (y ∷ ys) e = go (d.choices (y ∷ ys)) refl
      where
        go :
            (o : Option GachaItem)
            → d.choices (y ∷ ys) ≡ o
            → Spun d i s (draw_from d i settings.spin_price o s)
        go none h = tt
        go (some x) h =
            let k =
              select-In (in_pool (selected d.json_list settings.selected_item_ids)) s.items
                (subst (In x) e (draw.chosen (y ∷ ys) x h)) in
            give_prize-Spun x k.0 k.1

    spin_selected-Spun :
        (o : Option (List ℕ))
        → selected d.json_list settings.selected_item_ids ≡ o
        → Spun d i s (spin_selected d i settings.spin_price o s)
    unfolding spin_selected
    spin_selected-Spun none e =
        spin_pool-Spun _ (ap (λ o. select_where (in_pool o) s.items) (sym e))
    spin_selected-Spun (some []) e = refl
    spin_selected-Spun (some (j ∷ js)) e =
        spin_pool-Spun _ (ap (λ o. select_where (in_pool o) s.items) (sym e))

  spin_block-Spun : IsDraw d → Spun d i s (spin_block d i s)
  unfolding spin_block spin_settings spin_user
  spin_block-Spun draw = go (first_of s.settings) refl
    where
      user :
          (settings : GachaSettings)
          → first_of s.settings ≡ some settings
          → settings.is_active ≡ true
          → (o : Option User) → find_user i s.store ≡ o
          → Spun d i s (spin_user d i settings o s)
      user settings e a none f = refl
      user settings e a (some u) f = elim (Bool-cases (ltb_ℤ u.balance settings.spin_price)) [
        | inl b ↦ rw b refl
        | inr b ↦ rw b (
            spin_selected-Spun settings e a u f (ground arith) draw
              (selected d.json_list settings.selected_item_ids) refl)
      ]

      go : (o : Option GachaSettings) → first_of s.settings ≡ o → Spun d i s (spin_settings d i o s)
      go none e = refl
      go (some settings) e = act settings.is_active refl
        where
          act :
              (b : Bool)
              → settings.is_active ≡ b
              → Spun d i s (
                  if b
                  then spin_user d i settings (find_user i s.store) s
                  else ok (refused Refusal.maintenance, s))
          act true a = user settings e a (find_user i s.store) refl
          act false a = refl

-- How a spin ends, by its reply.
abbrev pub SpinOutcome : Draw → ℕ → GachaStore → Option SpinReply → GachaStore → Type 0
SpinOutcome d user_id before none after = after ≡ before
SpinOutcome d user_id before (some (refused r)) after = after ≡ before
SpinOutcome d user_id before (some (won x detail)) after = Won d user_id x detail before after

-- A spin that is refused or raises leaves the tables as they are. One that is won gives a prize of the
-- pool, active, in stock and selected, to a user who had the price: the balance falls by the price and
-- rises by the reward of a balance prize only, no one else's row changes, a limited prize is one fewer,
-- and the win is recorded. `Decimal` and `random.choices` are taken to behave as documented.
pub spin_gacha_for_user-SpinOutcome :
    (d : Draw) (user_id : ℕ) (s : GachaStore)
    → IsDraw d
    → SpinOutcome d user_id s
        (spin_gacha_for_user d user_id s).0
        (spin_gacha_for_user d user_id s).1
unfolding spin_gacha_for_user committed under
spin_gacha_for_user-SpinOutcome d i s draw =
    go d.fault (spin_block d i s) (spin_block-Spun d i s draw)
  where
    go :
        (f : Fault) (r : Result (SpinReply × GachaStore))
        → Spun d i s r
        → SpinOutcome d i s (committed (under f r) s).0 (committed (under f r) s).1
    go calm (err e) h = refl
    go calm (ok (refused r, after)) h = h
    go calm (ok (won x detail, after)) h = h
    go (early e) r h = refl
    go (late e) (err e') h = refl
    go (late e) (ok (reply, after)) h = refl

parse_decimal-nonneg :
    (d : Draw) (o : Option Text) (a : ℤ)
    → IsDraw d
    → pos 0 ≤ℤ a
    → pos 0 ≤ℤ parse_decimal d.to_decimal o a
unfolding parse_decimal
parse_decimal-nonneg d none a draw h = h
parse_decimal-nonneg d (some t) a draw h =
    elim (Bool-cases (leb (length (select_where is_amount_char t)) 0)) [
      | inl e ↦ rw e h
      | inr e ↦ rw e (go (d.to_decimal (select_where is_amount_char t)) refl)
    ]
  where
    go : (o : Option ℤ) → d.to_decimal (select_where is_amount_char t) ≡ o → pos 0 ≤ℤ or_default o a
    go none q = h
    go (some b) q = draw.positive (select_where is_amount_char t) b q

reward_of-nonneg : (d : Draw) (x : GachaItem) (t : ItemType) → IsDraw d → pos 0 ≤ℤ reward_of d x t
reward_of-nonneg d x balance_reward draw =
    parse_decimal-nonneg d x.reward_value (pos 1000000) draw (omega arith)
reward_of-nonneg d x promo_code draw = omega arith
reward_of-nonneg d x goods_item draw = omega arith
reward_of-nonneg d x text_gift draw = omega arith
reward_of-nonneg d x no_prize draw = omega arith
reward_of-nonneg d x other_type draw = omega arith

paid-nonneg : (b p r : ℤ) → p ≤ℤ b → pos 0 ≤ℤ r → pos 0 ≤ℤ (b -ℤ p) +ℤ r
paid-nonneg b p r h k = omega int_laws

-- No spin brings a balance below zero.
pub spin_gacha_for_user-IsSolvent :
    (d : Draw) (user_id : ℕ) (s : GachaStore)
    → IsDraw d
    → IsSolvent s.store.users
    → IsSolvent (spin_gacha_for_user d user_id s).1.store.users
spin_gacha_for_user-IsSolvent d i s draw h =
    go (spin_gacha_for_user d i s).0 (spin_gacha_for_user d i s).1
      (spin_gacha_for_user-SpinOutcome d i s draw)
  where
    go :
        (r : Option SpinReply) (after : GachaStore)
        → SpinOutcome d i s r after
        → IsSolvent after.store.users
    go none after o = subst (λ x. IsSolvent x.store.users) (sym o) h
    go (some (refused r)) after o = subst (λ x. IsSolvent x.store.users) (sym o) h
    go (some (won x detail)) after o = λ j v f.
        let p = o.paid in
        let a = reward_of-nonneg d x x.item_type draw in
        elim (Bool-cases (j == i)) [
          | inl e ↦
              let q : j ≡ i = ground arith in
              let same : v ≡ p.user_after =
                cc (subst (λ k. find_user k after.store ≡ some v) q f, p.found_after) in
              rw (same, p.balance) (paid-nonneg p.user.balance _ _ p.affordable a)
          | inr e ↦ h j v (sym (p.others j (ground arith)) ∙ f)
        ]
