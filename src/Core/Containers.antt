-- ===== src/Core/Containers.antt =====
-- libs/core/containers.h: the messages between the gateway, the order manager and the matching
-- engine. An `int` is an integer of ℤ; where code computes with it, the range is checked.
use elsa_fyp.Prelude.{ℤ, String, Option, Bool}
use elsa_fyp.Core.Orders.{Side, OrderType, TimeInForce, ExecTransType, ExecTypeOrOrderStatus}

pub record NewOrderSingle : Type 0 where
  pub sender_comp_id : String
  pub target_comp_id : String
  pub order_id : Option ℤ
  pub cl_ord_id : ℤ
  pub symbol : String
  pub side : Side
  pub order_qty : ℤ
  pub ord_type : OrderType
  pub price : Option ℤ
  pub time_in_force : TimeInForce

pub record CancelOrderRequest : Type 0 where
  pub sender_comp_id : String
  pub target_comp_id : String
  pub order_id : Option ℤ
  pub orig_cl_ord_id : ℤ
  pub cl_ord_id : ℤ
  pub symbol : String
  pub side : Side
  pub order_qty : ℤ

pub record ExecutionReport : Type 0 where
  pub sender_comp_id : String
  pub target_comp_id : String
  pub order_id : ℤ
  pub cl_order_id : ℤ
  pub orig_cl_ord_id : Option ℤ
  pub exec_id : String
  pub exec_trans_type : ExecTransType
  pub exec_type : ExecTypeOrOrderStatus
  pub ord_status : ExecTypeOrOrderStatus
  pub text : Option String
  pub symbol : String
  pub side : Side
  pub price : Option ℤ
  pub time_in_force : TimeInForce
  pub leaves_qty : ℤ
  pub cum_qty : ℤ
  pub avg_px : ℤ

pub record FillCostQuery : Type 0 where
  pub symbol : String
  pub quantity : ℤ
  pub side : Side

pub record FillCostResponse : Type 0 where
  pub total_cost : Option ℤ

pub record TradeContainer : Type 0 where
  pub ticker : String
  pub price : ℤ
  pub quantity : ℤ
  pub trade_id : String
  pub taker_id : String
  pub maker_id : String
  pub taker_order_id : ℤ
  pub maker_order_id : ℤ
  pub is_taker_buyer : Bool

pub record CancelOrderResponse : Type 0 where
  pub order_id : ℤ
  pub cl_ord_id : ℤ
  pub success : Bool

-- the variant
pub data Container : Type 0 where
  new_order_single : NewOrderSingle → Container
  cancel_order_request : CancelOrderRequest → Container
  execution_report : ExecutionReport → Container
  fill_cost_query : FillCostQuery → Container
  fill_cost_response : FillCostResponse → Container
  trade : TradeContainer → Container
  cancel_order_response : CancelOrderResponse → Container
