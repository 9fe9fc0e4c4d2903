-- ===== src/Transport/Proto.antt =====
-- libs/transport/protobufs/containers.proto: the enumerations with their unspecified value, and the
-- messages as the generated classes hold them. In this edition every scalar field has presence: a
-- reader of a field that is not set gets the default, and `has_` tells whether it is set.
use elsa_fyp.Prelude.{ℤ, String, Option, Bool}

pub data ProtoOrderType : Type 0 where
  order_type_unspecified order_type_limit order_type_market : ProtoOrderType

pub data ProtoSide : Type 0 where
  side_unspecified side_bid side_ask : ProtoSide

pub data ProtoTimeInForce : Type 0 where
  tif_unspecified tif_day tif_gtc : ProtoTimeInForce

pub data ProtoExecTransType : Type 0 where
  exec_trans_type_unspecified proto_exec_trans_new proto_exec_trans_cancel : ProtoExecTransType
  proto_exec_trans_correct proto_exec_trans_status : ProtoExecTransType

pub data ProtoStatus : Type 0 where
  unspecified proto_new proto_partially_filled proto_filled : ProtoStatus
  proto_canceled proto_pending_cancel proto_rejected : ProtoStatus

-- Only the fields that the serializer may leave unset are optional here.
pub record ProtoNewOrder : Type 0 where
  pub sender_comp_id : String
  pub target_comp_id : String
  pub cl_ord_id : ℤ
  pub symbol : String
  pub side : ProtoSide
  pub order_qty : ℤ
  pub ord_type : ProtoOrderType
  pub price : Option ℤ
  pub time_in_force : ProtoTimeInForce
  pub order_id : Option ℤ

pub record ProtoCancelRequest : Type 0 where
  pub sender_comp_id : String
  pub target_comp_id : String
  pub order_id : Option ℤ
  pub orig_cl_ord_id : ℤ
  pub cl_ord_id : ℤ
  pub symbol : String
  pub side : ProtoSide
  pub order_qty : ℤ

pub record ProtoReport : Type 0 where
  pub sender_comp_id : String
  pub target_comp_id : String
  pub order_id : ℤ
  pub cl_order_id : ℤ
  pub orig_cl_ord_id : Option ℤ
  pub exec_id : String
  pub exec_trans_type : ProtoExecTransType
  pub exec_type : ProtoStatus
  pub ord_status : ProtoStatus
  pub text : Option String
  pub symbol : String
  pub side : ProtoSide
  pub price : Option ℤ
  pub time_in_force : ProtoTimeInForce
  pub leaves_qty : ℤ
  pub cum_qty : ℤ
  pub avg_px : ℤ

pub record ProtoFillCostQuery : Type 0 where
  pub symbol : String
  pub quantity : ℤ
  pub side : ProtoSide

pub record ProtoFillCostResponse : Type 0 where
  pub total_cost : Option ℤ

pub record ProtoTrade : Type 0 where
  pub ticker : String
  pub price : ℤ
  pub quantity : ℤ
  pub trade_id : String
  pub taker_id : String
  pub maker_id : String
  pub taker_order_id : ℤ
  pub maker_order_id : ℤ
  pub is_taker_buyer : Bool

pub record ProtoCancelResponse : Type 0 where
  pub order_id : ℤ
  pub cl_ord_id : ℤ
  pub success : Bool

-- The `oneof` of `ContainerWrapper`, which may be unset.
pub data Wrapper : Type 0 where
  not_set : Wrapper
  new_order_single : ProtoNewOrder → Wrapper
  cancel_order_request : ProtoCancelRequest → Wrapper
  execution_report : ProtoReport → Wrapper
  fill_cost_query : ProtoFillCostQuery → Wrapper
  fill_cost_response : ProtoFillCostResponse → Wrapper
  trade : ProtoTrade → Wrapper
  cancel_order_response : ProtoCancelResponse → Wrapper

-- The generated code that turns a wrapper into bytes and back, and what it promises.
pub record Codec : Type 1 where
  pub Bytes : Type 0
  pub serialize_as_string : Wrapper → Bytes
  pub parse_from_string : Bytes → Option Wrapper
