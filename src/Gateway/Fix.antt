-- ===== src/Gateway/Fix.antt =====
-- libs/core/orders.h: the conversions between FIX fields and internal types. QuickFIX is not part of
-- the repository: its constants, what a message holds, and the functions of the standard library
-- that the gateway calls are the record Fix.
use elsa_fyp.Prelude.{
  ℕ, ◌==◌, if◌then◌else◌, Bool, true, false, not, ◌||◌, ℤ, pos, String, Option, Outcome, ok, err,
  ◌>>◌, require, Fault, assertion, logic_error,
}
use elsa_fyp.Core.Orders.{Side, OrderType, TimeInForce}

-- The constants, which are characters; numbers with a decimal point, in which the fields and the
-- code compute; the conversion to `std::int32_t`, which is undefined out of its range; what is read
-- from a field that was set to a number, which a field holds as decimal text with 15 digits;
-- `std::stoi`, `std::to_string` and `what`; and whether assertions are compiled in.
pub record Fix : Type 1 where
  pub side_buy : ℕ
  pub side_sell : ℕ
  pub ord_type_limit : ℕ
  pub ord_type_market : ℕ
  pub time_in_force_day : ℕ
  pub time_in_force_gtc : ℕ
  pub exec_trans_type_new : ℕ
  pub exec_type_new : ℕ
  pub exec_type_partial_fill : ℕ
  pub exec_type_fill : ℕ
  pub exec_type_canceled : ℕ
  pub exec_type_rejected : ℕ
  pub ord_status_new : ℕ
  pub ord_status_partially_filled : ℕ
  pub ord_status_filled : ℕ
  pub ord_status_canceled : ℕ
  pub ord_status_rejected : ℕ
  pub Double : Type 0
  pub of_int : ℤ → Double
  pub multiply : Double → Double → Double
  pub divide : Double → Double → Double
  pub int_of : Double → Outcome ℤ
  pub as_field : Double → Double
  pub stoi : String → Outcome ℤ
  pub to_string : ℤ → String
  pub what : Fault → String
  pub asserts : Bool

-- The fields of an inbound message, which need not be set, as they are read.
pub record Message (fix : Fix) : Type 0 where
  pub sender_comp_id : Option String
  pub target_comp_id : Option String
  pub cl_ord_id : Option String
  pub order_id : Option String
  pub orig_cl_ord_id : Option String
  pub symbol : Option String
  pub side : Option ℕ
  pub order_qty : Option fix.Double
  pub ord_type : Option ℕ
  pub price : Option fix.Double
  pub time_in_force : Option ℕ

-- A FIX42::ExecutionReport, with the fields that the gateway sets, as they are read.
pub record Report (fix : Fix) : Type 0 where
  pub order_id : String
  pub exec_id : String
  pub exec_trans_type : ℕ
  pub exec_type : ℕ
  pub ord_status : ℕ
  pub symbol : String
  pub side : Option ℕ
  pub leaves_qty : fix.Double
  pub cum_qty : fix.Double
  pub avg_px : fix.Double
  pub cl_ord_id : String
  pub order_qty : Option fix.Double
  pub last_px : Option fix.Double
  pub orig_cl_ord_id : Option String
  pub price : Option fix.Double
  pub text : Option String

module _ (fix : Fix) where
  -- `assert`
  abbrev pub assert : Bool → Outcome (Unit {0})
  assert test = require (test || not fix.asserts) assertion

  -- `convert_to_internal`, by type
  unfoldable pub side_from_fix : ℕ → Outcome Side
  side_from_fix side = do
    assert (side == fix.side_buy || side == fix.side_sell)
    if side == fix.side_buy
        then ok Side.bid
        else if side == fix.side_sell
        then ok Side.ask
        else err logic_error

  unfoldable pub ord_type_from_fix : ℕ → Outcome OrderType
  ord_type_from_fix ord_type = do
    assert (ord_type == fix.ord_type_limit || ord_type == fix.ord_type_market)
    if ord_type == fix.ord_type_limit
        then ok OrderType.limit
        else if ord_type == fix.ord_type_market
        then ok OrderType.market
        else err logic_error

  unfoldable pub tif_from_fix : ℕ → Outcome TimeInForce
  tif_from_fix tif = do
    assert (tif == fix.time_in_force_day || tif == fix.time_in_force_gtc)
    if tif == fix.time_in_force_day
        then ok TimeInForce.day
        else if tif == fix.time_in_force_gtc
        then ok TimeInForce.gtc
        else err logic_error

  -- `convert_to_fix`, by type
  abbrev pub side_to_fix : Side → ℕ
  side_to_fix Side.bid = fix.side_buy
  side_to_fix Side.ask = fix.side_sell

  abbrev pub ord_type_to_fix : OrderType → ℕ
  ord_type_to_fix OrderType.limit = fix.ord_type_limit
  ord_type_to_fix OrderType.market = fix.ord_type_market

  abbrev pub is_day : TimeInForce → Bool
  is_day TimeInForce.day = true
  is_day TimeInForce.gtc = false

  unfoldable pub tif_to_fix : TimeInForce → Outcome ℕ
  tif_to_fix tif = do
    assert (is_day tif)
    if is_day tif then ok fix.time_in_force_day else err logic_error

  abbrev pub decimal_to_int_multiplier : fix.Double
  decimal_to_int_multiplier = fix.of_int (pos 100)

  unfoldable pub convert_to_internal_price : fix.Double → Outcome ℤ
  convert_to_internal_price price = fix.int_of (fix.multiply price decimal_to_int_multiplier)

  unfoldable pub convert_to_internal_quantity : fix.Double → Outcome ℤ
  convert_to_internal_quantity quantity =
      fix.int_of (fix.multiply quantity decimal_to_int_multiplier)
