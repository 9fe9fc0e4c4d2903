-- ===== src/Manager/Reports.antt =====
-- The execution reports of services/order_manager/src/order_manager.cpp. The name of the server and
-- the unique id of a report (`time_generator_v7`) are arguments.
use elsa_fyp.Prelude.{
  ℤ, pos, negsuc, ◌/◌, sub_ℕ, suc, String, Option, none, some, if◌then◌else◌, eqb_ℤ, lookup, int_eq,
  Outcome, ok, err, terminate, assertion, bad_optional, out_of_range, or_fault, ◌>>=◌,
}
use elsa_fyp.Core.Orders.{
  Side, ExecTypeOrOrderStatus, exec_trans_new, status_new, status_partially_filled, status_filled,
  status_canceled, status_pending_cancel, status_rejected, max_user_count, opposite,
}
use elsa_fyp.Core.Containers.{
  Container, NewOrderSingle, CancelOrderRequest, ExecutionReport, TradeContainer,
  CancelOrderResponse,
}
use elsa_fyp.Manager.Orders.{OrderInfo, OrderInfoMap, OrderIdMap, default_order_info, left_find}

-- `id / max_user_count` in `int`, which truncates towards 0.
unfoldable pub client_order_id : ℤ → ℤ
client_order_id (pos n) = pos (n / max_user_count)
client_order_id (negsuc n) = sub_ℕ 0 (suc n / max_user_count)

-- Filled if nothing is left, else partially filled.
abbrev pub fill_status : OrderInfo → ExecTypeOrOrderStatus
fill_status i = if eqb_ℤ i.leaves_qty (pos 0) then status_filled else status_partially_filled

module _ (server_name exec_id : String) where
  -- The two reports on a new order, by their status, text and quantity.
  new_order_report :
      NewOrderSingle → ℤ → ExecTypeOrOrderStatus → Option String → ℤ → ExecutionReport
  new_order_report n order_id status text leaves_qty = record {
    sender_comp_id = server_name;
    target_comp_id = n.sender_comp_id;
    order_id = order_id;
    cl_order_id = n.cl_ord_id;
    orig_cl_ord_id = none;
    exec_id = exec_id;
    exec_trans_type = exec_trans_new;
    exec_type = status;
    ord_status = status;
    text = text;
    symbol = n.symbol;
    side = n.side;
    price = n.price;
    time_in_force = n.time_in_force;
    leaves_qty = leaves_qty;
    cum_qty = pos 0;
    avg_px = pos 0;
  }

  -- The two reports on a cancel request.
  cancel_request_report :
      CancelOrderRequest
      → OrderInfo
      → ℤ
      → ExecTypeOrOrderStatus
      → Option String
      → ℤ
      → ExecutionReport
  cancel_request_report c info order_id status text leaves_qty = record {
    sender_comp_id = server_name;
    target_comp_id = c.sender_comp_id;
    order_id = order_id;
    cl_order_id = c.cl_ord_id;
    orig_cl_ord_id = some c.orig_cl_ord_id;
    exec_id = exec_id;
    exec_trans_type = exec_trans_new;
    exec_type = status;
    ord_status = status;
    text = text;
    symbol = info.symbol;
    side = info.side;
    price = info.price;
    time_in_force = info.time_in_force;
    leaves_qty = leaves_qty;
    cum_qty = info.cum_qty;
    avg_px = info.avg_px;
  }

  unfoldable pub generate_rejection_report_container :
      Container → OrderInfoMap → String → Outcome ExecutionReport
  unfolding new_order_report cancel_request_report
  generate_rejection_report_container (Container.new_order_single n) infos reason = do
    order_id ← or_fault n.order_id bad_optional
    ok (new_order_report n order_id status_rejected (some reason) (pos 0))
  generate_rejection_report_container (Container.cancel_order_request c) infos reason =
      elim c.order_id [
        | none ↦ ok (
            cancel_request_report c default_order_info (negsuc 0) status_rejected (some reason)
              (pos 0))
        | some id ↦ (do
          info ← or_fault (lookup id infos) out_of_range
          ok (cancel_request_report c info id status_rejected (some reason) (pos 0)))
      ]
  generate_rejection_report_container _ infos reason = err terminate

  unfoldable pub generate_success_report_container :
      Container → OrderInfoMap → Outcome ExecutionReport
  unfolding new_order_report cancel_request_report
  generate_success_report_container (Container.new_order_single n) infos = do
    order_id ← or_fault n.order_id bad_optional
    ok (new_order_report n order_id status_new none n.order_qty)
  generate_success_report_container (Container.cancel_order_request c) infos = do
    order_id ← or_fault c.order_id bad_optional
    info ← or_fault (lookup order_id infos) out_of_range
    ok (cancel_request_report c info order_id status_pending_cancel none info.leaves_qty)
  generate_success_report_container _ infos = err assertion

  -- The report of one party to a trade.
  matched_order_report :
      TradeContainer
      → OrderIdMap
      → OrderInfoMap
      → String
      → ℤ
      → Side
      → String
      → Outcome ExecutionReport
  matched_order_report t ids infos party order_id side report_id = do
    transformed ← or_fault (left_find order_id ids) out_of_range
    info ← or_fault (lookup order_id infos) out_of_range
    ok (record {
      sender_comp_id = server_name;
      target_comp_id = party;
      order_id = order_id;
      cl_order_id = client_order_id transformed;
      orig_cl_ord_id = none;
      exec_id = report_id;
      exec_trans_type = exec_trans_new;
      exec_type = fill_status info;
      ord_status = fill_status info;
      text = none;
      symbol = t.ticker;
      side = side;
      price = some t.price;
      time_in_force = info.time_in_force;
      leaves_qty = info.leaves_qty;
      cum_qty = info.cum_qty;
      avg_px = info.avg_px;
    })

  abbrev pub taker_side : TradeContainer → Side
  taker_side t = if t.is_taker_buyer then Side.bid else Side.ask

  -- The taker's report, then the maker's, which draws a second id.
  unfoldable pub generate_matched_order_report_containers :
      String
      → TradeContainer
      → OrderIdMap
      → OrderInfoMap
      → Outcome (ExecutionReport × ExecutionReport)
  unfolding matched_order_report client_order_id left_find
  generate_matched_order_report_containers maker_exec_id t ids infos = do
    taker ← matched_order_report t ids infos t.taker_id t.taker_order_id (taker_side t) exec_id
    maker ←
        matched_order_report t ids infos t.maker_id t.maker_order_id (opposite (taker_side t))
          maker_exec_id
    ok (taker, maker)

  unfoldable pub generate_cancel_response_report_container :
      CancelOrderResponse → OrderIdMap → OrderInfoMap → Outcome ExecutionReport
  unfolding client_order_id left_find
  generate_cancel_response_report_container c ids infos = do
    info ← or_fault (lookup c.order_id infos) out_of_range
    transformed ← or_fault (left_find c.order_id ids) out_of_range
    let status : ExecTypeOrOrderStatus = if c.success then status_canceled else status_rejected
    ok (record {
      sender_comp_id = server_name;
      target_comp_id = info.sender_comp_id;
      order_id = c.order_id;
      cl_order_id = c.cl_ord_id;
      orig_cl_ord_id = some (client_order_id transformed);
      exec_id = exec_id;
      exec_trans_type = exec_trans_new;
      exec_type = status;
      ord_status = status;
      text = some (if c.success then "" else "Order had already been matched");
      symbol = info.symbol;
      side = info.side;
      price = info.price;
      time_in_force = info.time_in_force;
      leaves_qty = pos 0;
      cum_qty = info.cum_qty;
      avg_px = info.avg_px;
    })
