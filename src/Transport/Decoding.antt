-- ===== src/Transport/Decoding.antt =====
-- `deserialize_container` of libs/transport/messaging.h, and `serialize_container` over the
-- generated code.
use elsa_fyp.Prelude.{
  String, Option, none, some, Outcome, ok, err, invalid_argument, or_fault, ◌>>=◌,
}
use elsa_fyp.Core.Containers.{Container}
use elsa_fyp.Transport.Proto.{
  ProtoNewOrder, ProtoCancelRequest, ProtoReport, ProtoFillCostQuery, Wrapper, Codec,
}
use elsa_fyp.Transport.Messaging.{
  side_to_internal, ord_type_to_internal, tif_to_internal, trans_to_internal, status_to_internal,
  wrap,
}

unfoldable pub read_new_order : ProtoNewOrder → Outcome Container
unfolding side_to_internal ord_type_to_internal tif_to_internal
read_new_order p = do
  side ← side_to_internal p.side
  ord_type ← ord_type_to_internal p.ord_type
  time_in_force ← tif_to_internal p.time_in_force
  ok (
      Container.new_order_single (record {
        sender_comp_id = p.sender_comp_id;
        target_comp_id = p.target_comp_id;
        order_id = p.order_id;
        cl_ord_id = p.cl_ord_id;
        symbol = p.symbol;
        side = side;
        order_qty = p.order_qty;
        ord_type = ord_type;
        price = p.price;
        time_in_force = time_in_force;
      }))

unfoldable pub read_cancel_request : ProtoCancelRequest → Outcome Container
unfolding side_to_internal
read_cancel_request p = do
  side ← side_to_internal p.side
  ok (
      Container.cancel_order_request (record {
        sender_comp_id = p.sender_comp_id;
        target_comp_id = p.target_comp_id;
        order_id = p.order_id;
        orig_cl_ord_id = p.orig_cl_ord_id;
        cl_ord_id = p.cl_ord_id;
        symbol = p.symbol;
        side = side;
        order_qty = p.order_qty;
      }))

-- `text()` of a message whose text is not set is the empty string.
abbrev pub text_of : Option String → String
text_of none = ""
text_of (some t) = t

-- The text is read without a test for presence.
unfoldable pub read_report : ProtoReport → Outcome Container
unfolding side_to_internal tif_to_internal trans_to_internal status_to_internal
read_report p = do
  exec_trans_type ← trans_to_internal p.exec_trans_type
  exec_type ← status_to_internal p.exec_type
  ord_status ← status_to_internal p.ord_status
  side ← side_to_internal p.side
  time_in_force ← tif_to_internal p.time_in_force
  ok (
      Container.execution_report (record {
        sender_comp_id = p.sender_comp_id;
        target_comp_id = p.target_comp_id;
        order_id = p.order_id;
        cl_order_id = p.cl_order_id;
        orig_cl_ord_id = p.orig_cl_ord_id;
        exec_id = p.exec_id;
        exec_trans_type = exec_trans_type;
        exec_type = exec_type;
        ord_status = ord_status;
        text = some (text_of p.text);
        symbol = p.symbol;
        side = side;
        price = p.price;
        time_in_force = time_in_force;
        leaves_qty = p.leaves_qty;
        cum_qty = p.cum_qty;
        avg_px = p.avg_px;
      }))

unfoldable pub read_fill_cost_query : ProtoFillCostQuery → Outcome Container
unfolding side_to_internal
read_fill_cost_query p = do
  side ← side_to_internal p.side
  ok (Container.fill_cost_query (record { symbol = p.symbol; quantity = p.quantity; side = side }))

-- The switch on the case of the wrapper.
unfoldable pub unwrap : Wrapper → Outcome Container
unfolding read_new_order read_cancel_request read_report read_fill_cost_query
unwrap Wrapper.not_set = err invalid_argument
unwrap (Wrapper.new_order_single p) = read_new_order p
unwrap (Wrapper.cancel_order_request p) = read_cancel_request p
unwrap (Wrapper.execution_report p) = read_report p
unwrap (Wrapper.fill_cost_query p) = read_fill_cost_query p
unwrap (Wrapper.fill_cost_response p) =
    ok (Container.fill_cost_response (record { total_cost = p.total_cost }))
unwrap (Wrapper.trade p) = ok (
    Container.trade (record {
      ticker = p.ticker;
      price = p.price;
      quantity = p.quantity;
      trade_id = p.trade_id;
      taker_id = p.taker_id;
      maker_id = p.maker_id;
      taker_order_id = p.taker_order_id;
      maker_order_id = p.maker_order_id;
      is_taker_buyer = p.is_taker_buyer;
    }))
unwrap (Wrapper.cancel_order_response p) = ok (
    Container.cancel_order_response
      (record { order_id = p.order_id; cl_ord_id = p.cl_ord_id; success = p.success }))

module _ (codec : Codec) where
  open codec use {Bytes, serialize_as_string, parse_from_string}

  unfoldable pub serialize_container : Container → Bytes
  unfolding wrap
  serialize_container c = serialize_as_string (wrap c)

  unfoldable pub deserialize_container : Bytes → Outcome Container
  unfolding unwrap
  deserialize_container data_bytes = do
    wrapper ← or_fault (parse_from_string data_bytes) invalid_argument
    unwrap wrapper
