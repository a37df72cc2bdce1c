-- ===== src/Gacha.antt =====
-- `spin_gacha_for_user` of bot/database/methods/gacha.py, on the tables of bot/database/models/gacha.py.
pub mod Spin
pub mod Outcome
use telegramshop_zijjn.Prelude.{
  ℕ, zero, suc, ◌+◌, ◌*◌, ◌/◌, ◌==◌, ltb, leb, if◌then◌else◌, Bool, true, false, not, ◌&&◌, ◌||◌,
  Option, none, some, List, [], ◌∷◌, ◌++◌, ℤ, pos, negsuc, ◌-ℤ◌, ltb_ℤ, Text, text_eq, codes,
  decimal, length, first, exists, In, select_where, update_where, ◌≤ℤ◌, ◌≡◌,
}
use telegramshop_zijjn.Models.{User, Good, ItemValue, BoughtGood, PromoCode, aware, percent, global}
use telegramshop_zijjn.Store.{
  Store, Fault, calm, early, late, Result, ok, err, integrity, other, ◌>>=◌,
}
use telegramshop_zijjn.Transactions.Accounts.{find_user, credit, charge}
use telegramshop_zijjn.Transactions.Adjust.{add_operation}
use telegramshop_zijjn.Transactions.Buy.{insert_bought}
use telegramshop_zijjn.Transactions.Stock.{consume, is_stock_of}

-- `String(50)`; the values that the program distinguishes, and any other.
pub data ItemType : Type 0 where
  balance_reward promo_code goods_item text_gift no_prize other_type : ItemType

-- `unlimited` is a `stock_quantity` of -1, `amount n` one of n; less than -1 is never in the pool, as
-- is 0.
pub data StockQuantity : Type 0 where
  unlimited : StockQuantity
  amount : ℕ → StockQuantity

pub record GachaItem : Type 0 where
  pub id : ℕ
  pub name : Text
  pub description : Option Text
  pub item_type : ItemType
  pub goods_id : Option ℕ
  pub reward_value : Option Text
  pub stock_quantity : StockQuantity
  pub is_active : Bool

pub record GachaSettings : Type 0 where
  pub spin_price : ℤ
  pub is_active : Bool
  pub selected_item_ids : Option Text

-- What the user is told, by what it says.
pub data RewardDetail : Type 0 where
  credited : ℤ → RewardDetail
  promo : Text → ℤ → RewardDetail
  delivered : Text → Text → RewardDetail
  out_of_stock : Text → RewardDetail
  gift : Text → RewardDetail
  promised : Text → RewardDetail
  better_luck : RewardDetail
  nothing : RewardDetail

pub record GachaUserWin : Type 0 where
  pub user_id : ℕ
  pub gacha_item_id : ℕ
  pub item_name : Text
  pub reward_details : RewardDetail
  pub won_at : ℕ

-- The tables of the shop and those of the gacha.
pub record GachaStore : Type 0 where
  pub store : Store
  pub settings : List GachaSettings
  pub items : List GachaItem
  pub wins : List GachaUserWin

-- What a spin draws from outside: `json.loads` to a list, `Decimal` on a text of digits and dots in
-- cents, `random.choices` on the weights of the pool, the random parts of a code and of an id, the
-- clock, and the errors of the database. `none` stands for an exception.
pub record Draw : Type 0 where
  pub json_list : Text → Option (List ℕ)
  pub to_decimal : Text → Option ℤ
  pub choices : List GachaItem → Option GachaItem
  pub code_number : ℕ
  pub unique_id : ℕ
  pub now : ℕ
  pub fault : Fault

-- `Decimal` makes no negative number of digits and dots, and `choices` chooses from its list.
pub record IsDraw (d : Draw) : Type 0 where
  pub positive : (t : Text) (a : ℤ) → d.to_decimal t ≡ some a → pos 0 ≤ℤ a
  pub chosen : (xs : List GachaItem) (x : GachaItem) → d.choices xs ≡ some x → In x xs

pub data Refusal : Type 0 where
  maintenance user_not_found insufficient nothing_selected no_items : Refusal

pub data SpinReply : Type 0 where
  refused : Refusal → SpinReply
  won : GachaItem → RewardDetail → SpinReply

abbrev pub or_text : Option Text → Text → Text
or_text none t = t
or_text (some []) t = t
or_text (some (c ∷ cs)) t = c ∷ cs

abbrev pub is_amount_char : ℕ → Bool
is_amount_char c = (leb b'0' c && leb c b'9') || c == b'.'

abbrev pub or_default : Option ℤ → ℤ → ℤ
or_default none a = a
or_default (some b) a = b

-- `isdigit` is that of ASCII.
pub parse_decimal : (Text → Option ℤ) → Option Text → ℤ → ℤ
parse_decimal to_decimal none default = default
parse_decimal to_decimal (some t) default =
    let clean = select_where is_amount_char t in
    if leb (length clean) 0 then default else or_default (to_decimal clean) default

-- `int(amount)`, back in cents.
pub whole : ℤ → ℤ
whole (pos n) = pos (n / 100 * 100)
whole (negsuc n) = pos 0 -ℤ pos (suc n / 100 * 100)

abbrev pub is_available : StockQuantity → Bool
is_available unlimited = true
is_available (amount n) = ltb 0 n

-- The selected ids, `none` for no restriction: no text, or one that is no list.
abbrev pub selected : (Text → Option (List ℕ)) → Option Text → Option (List ℕ)
selected json_list none = none
selected json_list (some []) = none
selected json_list (some (c ∷ cs)) = json_list (c ∷ cs)

abbrev pub is_selected : Option (List ℕ) → GachaItem → Bool
is_selected none x = true
is_selected (some ids) x = exists (λ i. i == x.id) ids

abbrev pub in_pool : Option (List ℕ) → GachaItem → Bool
in_pool ids x = x.is_active && is_available x.stock_quantity && is_selected ids x

abbrev pub has_gacha_id : ℕ → GachaItem → Bool
has_gacha_id i x = x.id == i

abbrev pub one_fewer : StockQuantity → StockQuantity
one_fewer unlimited = unlimited
one_fewer (amount zero) = amount zero
one_fewer (amount (suc n)) = amount n

abbrev pub drawn_once : GachaItem → GachaItem
drawn_once x = record x { stock_quantity = one_fewer x.stock_quantity }

abbrev pub gacha_promo : Draw → ℤ → Store → PromoCode
gacha_promo d value db = record {
  id = db.next_id;
  code = codes "GACHA-" ++ decimal d.code_number;
  discount_type = percent;
  discount_value = value;
  scope = global;
  max_uses = 1;
  current_uses = 0;
  expires_at = some (aware (d.now + 604800));
  category_id = none;
  item_id = none;
  is_active = true;
}

-- The insertion, which the unique constraint on the code may refuse.
pub insert_promo : PromoCode → Store → Result Store
insert_promo p db =
    if exists (λ q. text_eq q.code p.code) db.promo_codes
    then err (integrity false)
    else ok (record db { promo_codes = db.promo_codes ++ p ∷ []; next_id = suc db.next_id })

abbrev pub prize : Draw → ℕ → Good → ItemValue → Store → BoughtGood
prize d user_id g v db = record {
  id = db.next_id;
  item_name = g.name;
  value = or_text v.value (codes "Sản phẩm KTS");
  price = pos 0;
  buyer_id = some user_id;
  bought_datetime = d.now;
  unique_id = d.unique_id;
  delivery_type = or_text (some v.delivery_type) (codes "text");
  file_path = v.file_path;
  file_name = v.file_name;
}

pub deliver_value : Draw → ℕ → Good → Option ItemValue → Store → Result (RewardDetail × Store)
deliver_value d user_id g none db = ok (out_of_stock g.name, db)
deliver_value d user_id g (some v) db =
    insert_bought (prize d user_id g v db) (record db { item_values = consume v db.item_values })
    >>= λ db2. ok (delivered g.name (or_text v.value (codes "Sản phẩm KTS")), db2)

pub deliver_good : Draw → ℕ → GachaItem → Option Good → Store → Result (RewardDetail × Store)
deliver_good d user_id x none db =
    ok (promised (or_text x.reward_value (codes "Phần thưởng sản phẩm")), db)
deliver_good d user_id x (some g) db =
    deliver_value d user_id g (first (is_stock_of g.id) db.item_values) db

abbrev pub good_of : Option ℕ → Store → Option Good
good_of none db = none
good_of (some i) db = first (λ g. g.id == i) db.goods

-- The reward, by the type of the item.
pub fulfil_prize : Draw → ℕ → GachaItem → ItemType → Store → Result (RewardDetail × Store)
fulfil_prize d user_id x balance_reward db =
    let a = parse_decimal d.to_decimal x.reward_value (pos 1000000) in
    ok (credited a, add_operation user_id (whole a) d.now (credit user_id a db))
fulfil_prize d user_id x promo_code db =
    let value = parse_decimal d.to_decimal x.reward_value (pos 1000) in
    insert_promo (gacha_promo d value db) db >>= λ db2.
    ok (promo (codes "GACHA-" ++ decimal d.code_number) value, db2)
fulfil_prize d user_id x goods_item db = deliver_good d user_id x (good_of x.goods_id db) db
fulfil_prize d user_id x text_gift db =
    ok (gift (or_text x.reward_value (or_text x.description (codes "Phần thưởng quà tặng"))), db)
fulfil_prize d user_id x no_prize db = ok (better_luck, db)
fulfil_prize d user_id x other_type db = ok (nothing, db)

abbrev pub win : Draw → ℕ → GachaItem → RewardDetail → GachaUserWin
win d user_id x detail = record {
  user_id = user_id;
  gacha_item_id = x.id;
  item_name = x.name;
  reward_details = detail;
  won_at = d.now;
}

-- The price is taken, one of the item, the reward is given, the win is recorded.
pub give_prize : Draw → ℕ → ℤ → GachaItem → GachaStore → Result (SpinReply × GachaStore)
give_prize d user_id price x s =
    let paid = add_operation user_id (pos 0 -ℤ whole price) d.now (charge user_id price s.store) in
    fulfil_prize d user_id x x.item_type paid >>= λ r. ok (
      won x r.0,
      record s {
        store = r.1;
        items = update_where (has_gacha_id x.id) drawn_once s.items;
        wins = s.wins ++ win d user_id x r.0 ∷ [];
      },
    )

-- `choices` raises ValueError when no weight is positive.
pub draw_from : Draw → ℕ → ℤ → Option GachaItem → GachaStore → Result (SpinReply × GachaStore)
draw_from d user_id price none s = err other
draw_from d user_id price (some x) s = give_prize d user_id price x s

pub spin_pool : Draw → ℕ → ℤ → List GachaItem → GachaStore → Result (SpinReply × GachaStore)
spin_pool d user_id price [] s = ok (refused no_items, s)
spin_pool d user_id price (x ∷ xs) s = draw_from d user_id price (d.choices (x ∷ xs)) s

pub spin_selected : Draw → ℕ → ℤ → Option (List ℕ) → GachaStore → Result (SpinReply × GachaStore)
spin_selected d user_id price none s =
    spin_pool d user_id price (select_where (in_pool none) s.items) s
spin_selected d user_id price (some []) s = ok (refused nothing_selected, s)
spin_selected d user_id price (some (i ∷ is)) s =
    spin_pool d user_id price (select_where (in_pool (some (i ∷ is))) s.items) s

pub spin_user :
    Draw → ℕ → GachaSettings → Option User → GachaStore → Result (SpinReply × GachaStore)
spin_user d user_id settings none s = ok (refused user_not_found, s)
spin_user d user_id settings (some u) s =
    if ltb_ℤ u.balance settings.spin_price
    then ok (refused insufficient, s)
    else spin_selected d user_id settings.spin_price
        (selected d.json_list settings.selected_item_ids) s

pub spin_settings : Draw → ℕ → Option GachaSettings → GachaStore → Result (SpinReply × GachaStore)
spin_settings d user_id none s = ok (refused maintenance, s)
spin_settings d user_id (some settings) s =
    if settings.is_active
    then spin_user d user_id settings (find_user user_id s.store) s
    else ok (refused maintenance, s)

abbrev pub first_of : {A : Type 0} → List A → Option A
first_of [] = none
first_of (x ∷ xs) = some x

pub spin_block : Draw → ℕ → GachaStore → Result (SpinReply × GachaStore)
spin_block d user_id s = spin_settings d user_id (first_of s.settings) s

-- What an exception leaves: the tables as they were.
pub committed : Result (SpinReply × GachaStore) → GachaStore → Option SpinReply × GachaStore
committed (ok (reply, after)) before = (some reply, after)
committed (err e) before = (none, before)

pub under : Fault → Result (SpinReply × GachaStore) → Result (SpinReply × GachaStore)
under calm r = r
under (early e) r = err e
under (late e) r = r >>= λ _. err e

-- The reply, `none` if the spin raises.
unfoldable pub spin_gacha_for_user : Draw → ℕ → GachaStore → Option SpinReply × GachaStore
spin_gacha_for_user d user_id s = committed (under d.fault (spin_block d user_id s)) s
