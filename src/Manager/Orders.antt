-- ===== src/Manager/Orders.antt =====
-- services/order_manager/src/order_manager.h: the records that the handlers share, and the state of
-- the order manager with what it has sent.
use elsa_fyp.Prelude.{ℤ, String, Option, none, some, List, [], ◌∷◌, Map, eqb_ℤ, if◌then◌else◌}
use elsa_fyp.Core.Orders.{Side, TimeInForce}

pub record OrderInfo : Type 0 where
  pub sender_comp_id : String
  pub symbol : String
  pub side : Side
  pub price : Option ℤ
  pub time_in_force : TimeInForce
  pub leaves_qty : ℤ
  pub cum_qty : ℤ
  pub avg_px : ℤ
  pub arrival_gateway_id : ℤ

-- `OrderInfo{}`
abbrev pub default_order_info : OrderInfo
default_order_info = record {
  sender_comp_id = "";
  symbol = "";
  side = Side.bid;
  price = none;
  time_in_force = TimeInForce.day;
  leaves_qty = ℤ.pos 0;
  cum_qty = ℤ.pos 0;
  avg_px = ℤ.pos 0;
  arrival_gateway_id = ℤ.pos 0;
}

abbrev pub usd_symbol : String
usd_symbol = "USD"

abbrev pub OrderInfoMap : Type 0
OrderInfoMap = Map ℤ OrderInfo

abbrev pub UserIdMap : Type 0
UserIdMap = Map String ℤ

-- `boost::bimap<int, int>`: internal order id on the left, sender and client order id on the right.
abbrev pub OrderIdMap : Type 0
OrderIdMap = List (ℤ × ℤ)

unfoldable pub left_find : ℤ → OrderIdMap → Option ℤ
left_find k [] = none
left_find k ((l, r) ∷ m) = if eqb_ℤ l k then some r else left_find k m

unfoldable pub right_find : ℤ → OrderIdMap → Option ℤ
right_find k [] = none
right_find k ((l, r) ∷ m) = if eqb_ℤ r k then some l else right_find k m

-- `insert` does nothing where one of the two is there already.
unfoldable pub bimap_insert : ℤ → ℤ → OrderIdMap → OrderIdMap
unfolding left_find right_find
bimap_insert l r m = elim (left_find l m) [
  | some _ ↦ m
  | none ↦ elim (right_find r m) [ some _ ↦ m | none ↦ (l, r) ∷ m ]
]
