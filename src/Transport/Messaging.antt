-- ===== src/Transport/Messaging.antt =====
-- libs/transport/messaging.h: containers to bytes and back.
use elsa_fyp.Prelude.{Outcome, ok, err, invalid_argument}
use elsa_fyp.Core.Orders.{Side, OrderType, TimeInForce, ExecTransType, ExecTypeOrOrderStatus}
use elsa_fyp.Core.Containers.{
  Container, NewOrderSingle, CancelOrderRequest, ExecutionReport, FillCostQuery, FillCostResponse,
  TradeContainer, CancelOrderResponse,
}
use elsa_fyp.Transport.Proto.{
  ProtoOrderType, ProtoSide, ProtoTimeInForce, ProtoExecTransType, ProtoStatus, Wrapper,
}

-- `convert_to_proto`, by type
unfoldable pub side_to_proto : Side → ProtoSide
side_to_proto Side.bid = ProtoSide.side_bid
side_to_proto Side.ask = ProtoSide.side_ask

unfoldable pub ord_type_to_proto : OrderType → ProtoOrderType
ord_type_to_proto OrderType.limit = ProtoOrderType.order_type_limit
ord_type_to_proto OrderType.market = ProtoOrderType.order_type_market

unfoldable pub tif_to_proto : TimeInForce → ProtoTimeInForce
tif_to_proto TimeInForce.day = ProtoTimeInForce.tif_day
tif_to_proto TimeInForce.gtc = ProtoTimeInForce.tif_gtc

unfoldable pub trans_to_proto : ExecTransType → ProtoExecTransType
trans_to_proto ExecTransType.exec_trans_new = ProtoExecTransType.proto_exec_trans_new
trans_to_proto ExecTransType.exec_trans_cancel = ProtoExecTransType.proto_exec_trans_cancel
trans_to_proto ExecTransType.exec_trans_correct = ProtoExecTransType.proto_exec_trans_correct
trans_to_proto ExecTransType.exec_trans_status = ProtoExecTransType.proto_exec_trans_status

unfoldable pub status_to_proto : ExecTypeOrOrderStatus → ProtoStatus
status_to_proto ExecTypeOrOrderStatus.status_new = ProtoStatus.proto_new
status_to_proto ExecTypeOrOrderStatus.status_partially_filled = ProtoStatus.proto_partially_filled
status_to_proto ExecTypeOrOrderStatus.status_filled = ProtoStatus.proto_filled
status_to_proto ExecTypeOrOrderStatus.status_canceled = ProtoStatus.proto_canceled
status_to_proto ExecTypeOrOrderStatus.status_pending_cancel = ProtoStatus.proto_pending_cancel
status_to_proto ExecTypeOrOrderStatus.status_rejected = ProtoStatus.proto_rejected

-- `convert_to_internal`, which throws on an unspecified value
unfoldable pub side_to_internal : ProtoSide → Outcome Side
side_to_internal ProtoSide.side_bid = ok Side.bid
side_to_internal ProtoSide.side_ask = ok Side.ask
side_to_internal ProtoSide.side_unspecified = err invalid_argument

unfoldable pub ord_type_to_internal : ProtoOrderType → Outcome OrderType
ord_type_to_internal ProtoOrderType.order_type_limit = ok OrderType.limit
ord_type_to_internal ProtoOrderType.order_type_market = ok OrderType.market
ord_type_to_internal ProtoOrderType.order_type_unspecified = err invalid_argument

unfoldable pub tif_to_internal : ProtoTimeInForce → Outcome TimeInForce
tif_to_internal ProtoTimeInForce.tif_day = ok TimeInForce.day
tif_to_internal ProtoTimeInForce.tif_gtc = ok TimeInForce.gtc
tif_to_internal ProtoTimeInForce.tif_unspecified = err invalid_argument

unfoldable pub trans_to_internal : ProtoExecTransType → Outcome ExecTransType
trans_to_internal ProtoExecTransType.proto_exec_trans_new = ok ExecTransType.exec_trans_new
trans_to_internal ProtoExecTransType.proto_exec_trans_cancel = ok ExecTransType.exec_trans_cancel
trans_to_internal ProtoExecTransType.proto_exec_trans_correct = ok ExecTransType.exec_trans_correct
trans_to_internal ProtoExecTransType.proto_exec_trans_status = ok ExecTransType.exec_trans_status
trans_to_internal ProtoExecTransType.exec_trans_type_unspecified = err invalid_argument

unfoldable pub status_to_internal : ProtoStatus → Outcome ExecTypeOrOrderStatus
status_to_internal ProtoStatus.proto_new = ok ExecTypeOrOrderStatus.status_new
status_to_internal ProtoStatus.proto_partially_filled =
    ok ExecTypeOrOrderStatus.status_partially_filled
status_to_internal ProtoStatus.proto_filled = ok ExecTypeOrOrderStatus.status_filled
status_to_internal ProtoStatus.proto_canceled = ok ExecTypeOrOrderStatus.status_canceled
status_to_internal ProtoStatus.proto_pending_cancel = ok ExecTypeOrOrderStatus.status_pending_cancel
status_to_internal ProtoStatus.proto_rejected = ok ExecTypeOrOrderStatus.status_rejected
status_to_internal ProtoStatus.unspecified = err invalid_argument

-- The wrapper that each overload of `serialize_container` fills.
unfoldable pub wrap_new_order : NewOrderSingle → Wrapper
unfolding side_to_proto ord_type_to_proto tif_to_proto
wrap_new_order c = Wrapper.new_order_single (record {
  sender_comp_id = c.sender_comp_id;
  target_comp_id = c.target_comp_id;
  cl_ord_id = c.cl_ord_id;
  symbol = c.symbol;
  side = side_to_proto c.side;
  order_qty = c.order_qty;
  ord_type = ord_type_to_proto c.ord_type;
  price = c.price;
  time_in_force = tif_to_proto c.time_in_force;
  order_id = c.order_id;
})

unfoldable pub wrap_cancel_request : CancelOrderRequest → Wrapper
unfolding side_to_proto
wrap_cancel_request c = Wrapper.cancel_order_request (record {
  sender_comp_id = c.sender_comp_id;
  target_comp_id = c.target_comp_id;
  order_id = c.order_id;
  orig_cl_ord_id = c.orig_cl_ord_id;
  cl_ord_id = c.cl_ord_id;
  symbol = c.symbol;
  side = side_to_proto c.side;
  order_qty = c.order_qty;
})

unfoldable pub wrap_report : ExecutionReport → Wrapper
unfolding side_to_proto tif_to_proto trans_to_proto status_to_proto
wrap_report c = Wrapper.execution_report (record {
  sender_comp_id = c.sender_comp_id;
  target_comp_id = c.target_comp_id;
  order_id = c.order_id;
  cl_order_id = c.cl_order_id;
  orig_cl_ord_id = c.orig_cl_ord_id;
  exec_id = c.exec_id;
  exec_trans_type = trans_to_proto c.exec_trans_type;
  exec_type = status_to_proto c.exec_type;
  ord_status = status_to_proto c.ord_status;
  text = c.text;
  symbol = c.symbol;
  side = side_to_proto c.side;
  price = c.price;
  time_in_force = tif_to_proto c.time_in_force;
  leaves_qty = c.leaves_qty;
  cum_qty = c.cum_qty;
  avg_px = c.avg_px;
})

unfoldable pub wrap_fill_cost_query : FillCostQuery → Wrapper
unfolding side_to_proto
wrap_fill_cost_query c =
    Wrapper.fill_cost_query
      (record { symbol = c.symbol; quantity = c.quantity; side = side_to_proto c.side })

unfoldable pub wrap_fill_cost_response : FillCostResponse → Wrapper
wrap_fill_cost_response c = Wrapper.fill_cost_response (record { total_cost = c.total_cost })

unfoldable pub wrap_trade : TradeContainer → Wrapper
wrap_trade c = Wrapper.trade (record {
  ticker = c.ticker;
  price = c.price;
  quantity = c.quantity;
  trade_id = c.trade_id;
  taker_id = c.taker_id;
  maker_id = c.maker_id;
  taker_order_id = c.taker_order_id;
  maker_order_id = c.maker_order_id;
  is_taker_buyer = c.is_taker_buyer;
})

unfoldable pub wrap_cancel_response : CancelOrderResponse → Wrapper
wrap_cancel_response c =
    Wrapper.cancel_order_response
      (record { order_id = c.order_id; cl_ord_id = c.cl_ord_id; success = c.success })

unfoldable pub wrap : Container → Wrapper
unfolding wrap_new_order wrap_cancel_request wrap_report wrap_fill_cost_query
    wrap_fill_cost_response wrap_trade wrap_cancel_response
wrap (Container.new_order_single c) = wrap_new_order c
wrap (Container.cancel_order_request c) = wrap_cancel_request c
wrap (Container.execution_report c) = wrap_report c
wrap (Container.fill_cost_query c) = wrap_fill_cost_query c
wrap (Container.fill_cost_response c) = wrap_fill_cost_response c
wrap (Container.trade c) = wrap_trade c
wrap (Container.cancel_order_response c) = wrap_cancel_response c
