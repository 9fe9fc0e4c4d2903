-- ===== src/Gateway/Application.antt =====
-- gateway_application.{h,cpp}: the handlers of FIX messages and of reports. What is logged is left out.
use elsa_fyp.Prelude.{
  ℕ, ◌==◌, if◌then◌else◌, ℤ, pos, ◌+ℤ◌, String, Option, some, none, Outcome, ok, err, ◌>>=◌,
  field_not_found, is_exception, int32, map_option,
}
use elsa_fyp.Core.Orders.{ExecTypeOrOrderStatus}
use elsa_fyp.Core.Containers.{Container, NewOrderSingle, CancelOrderRequest, ExecutionReport}
use elsa_fyp.Transport.Proto.{Codec}
use elsa_fyp.Transport.Decoding.{serialize_container, deserialize_container}
use elsa_fyp.Gateway.Fix.{
  Fix, Message, Report, side_from_fix, ord_type_from_fix, tif_from_fix, side_to_fix,
  convert_to_internal_price, convert_to_internal_quantity, decimal_to_int_multiplier,
}

-- What a handler sends: bytes to the order manager, or a report from a sender to a target. Where
-- there is no such session, QuickFIX sends nothing and the error is logged.
pub data Call (fix : Fix) (codec : Codec) : Type 0 where
  send : codec.Bytes → Call fix codec
  send_to_target : Report fix → (sender target : String) → Call fix codec

-- The variables of a handler that `rejectMessage` reads, as far as fields were found.
pub record Locals : Type 0 where
  pub sender_comp_id : String
  pub target_comp_id : String
  pub cl_ord_id : String
  pub symbol : String
  pub side : Option ℕ

abbrev pub unread : Locals
unread = record {
  sender_comp_id = "";
  target_comp_id = "";
  cl_ord_id = "";
  symbol = "";
  side = none;
}

-- `message.get`, and the rest of the `try` block.
abbrev pub get : {V A : Type 0} → Option V → Locals → (V → Locals × Outcome A) → Locals × Outcome A
get none l rest = (l, err field_not_found)
get (some v) l rest = rest v

module _ (fix : Fix) where
  -- The price, which only a limit order has.
  abbrev pub price_field : ℕ → Option fix.Double → Option (Option fix.Double)
  price_field ord_type price =
      if ord_type == fix.ord_type_limit then map_option some price else some none

  -- The price of the container, which is converted if there is one.
  abbrev pub convert_price : Option fix.Double → Outcome (Option ℤ)
  convert_price none = ok none
  convert_price (some p) = convert_to_internal_price fix p >>= λ z. ok (some z)

  unfoldable pub new_order_of :
      Locals
      → (order_qty : fix.Double) → (ord_type : ℕ) → Option fix.Double
      → (time_in_force side : ℕ) → Outcome NewOrderSingle
  unfolding side_from_fix ord_type_from_fix tif_from_fix convert_to_internal_price
      convert_to_internal_quantity
  new_order_of l order_qty ord_type price time_in_force side = do
    cl_ord_id ← fix.stoi l.cl_ord_id
    internal_side ← side_from_fix fix side
    quantity ← convert_to_internal_quantity fix order_qty
    internal_type ← ord_type_from_fix fix ord_type
    internal_price ← convert_price price
    tif ← tif_from_fix fix time_in_force
    ok (record {
      sender_comp_id = l.sender_comp_id;
      target_comp_id = l.target_comp_id;
      order_id = none;
      cl_ord_id = cl_ord_id;
      symbol = l.symbol;
      side = internal_side;
      order_qty = quantity;
      ord_type = internal_type;
      price = internal_price;
      time_in_force = tif;
    })

  -- The `try` block of the handler of a new order.
  unfoldable pub receive_new_order : Message fix → Locals × Outcome NewOrderSingle
  unfolding new_order_of
  receive_new_order m = get m.sender_comp_id unread λ sender.
      let l1 = record unread { sender_comp_id = sender } in
      get m.target_comp_id l1 λ target.
        let l2 = record l1 { target_comp_id = target } in
        get m.cl_ord_id l2 λ cl_ord_id.
          let l3 = record l2 { cl_ord_id = cl_ord_id } in
          get m.symbol l3 λ symbol.
            let l4 = record l3 { symbol = symbol } in
            get m.side l4 λ side.
              let l5 = record l4 { side = some side } in
              get m.order_qty l5 λ order_qty. get m.ord_type l5 λ ord_type.
                get (price_field ord_type m.price) l5 λ price.
                  get m.time_in_force l5 λ time_in_force.
                    (l5, new_order_of l5 order_qty ord_type price time_in_force side)

  -- An optional order id, as a number.
  abbrev pub stoi_option : Option String → Outcome (Option ℤ)
  stoi_option none = ok none
  stoi_option (some t) = fix.stoi t >>= λ n. ok (some n)

  unfoldable pub cancel_request_of :
      Locals
      → (order_id : Option String) → (orig_cl_ord_id : String) → (order_qty : fix.Double)
      → (side : ℕ) → Outcome CancelOrderRequest
  unfolding side_from_fix convert_to_internal_quantity
  cancel_request_of l order_id orig_cl_ord_id order_qty side = do
    id ← stoi_option order_id
    orig ← fix.stoi orig_cl_ord_id
    cl_ord_id ← fix.stoi l.cl_ord_id
    internal_side ← side_from_fix fix side
    quantity ← convert_to_internal_quantity fix order_qty
    ok (record {
      sender_comp_id = l.sender_comp_id;
      target_comp_id = l.target_comp_id;
      order_id = id;
      orig_cl_ord_id = orig;
      cl_ord_id = cl_ord_id;
      symbol = l.symbol;
      side = internal_side;
      order_qty = quantity;
    })

  -- The `try` block of the handler of a cancel request.
  unfoldable pub receive_cancel_request : Message fix → Locals × Outcome CancelOrderRequest
  unfolding cancel_request_of
  receive_cancel_request m = get m.sender_comp_id unread λ sender.
      let l1 = record unread { sender_comp_id = sender } in
      get m.target_comp_id l1 λ target.
        let l2 = record l1 { target_comp_id = target } in
        get m.orig_cl_ord_id l2 λ orig_cl_ord_id. get m.cl_ord_id l2 λ cl_ord_id.
          let l3 = record l2 { cl_ord_id = cl_ord_id } in
          get m.order_qty l3 λ order_qty. get m.symbol l3 λ symbol.
            let l4 = record l3 { symbol = symbol } in
            get m.side l4 λ side.
              let l5 = record l4 { side = some side } in
              (l5, cancel_request_of l5 m.order_id orig_cl_ord_id order_qty side)

  -- The report of `rejectMessage`.
  abbrev pub rejection : Locals → (exec_id reason : String) → Report fix
  rejection l exec_id reason = record {
    order_id = l.cl_ord_id;
    exec_id = exec_id;
    exec_trans_type = fix.exec_trans_type_new;
    exec_type = fix.exec_type_rejected;
    ord_status = fix.exec_type_rejected;
    symbol = l.symbol;
    side = l.side;
    leaves_qty = fix.as_field (fix.of_int (pos 0));
    cum_qty = fix.as_field (fix.of_int (pos 0));
    avg_px = fix.as_field (fix.of_int (pos 0));
    cl_ord_id = l.cl_ord_id;
    order_qty = none;
    last_px = none;
    orig_cl_ord_id = none;
    price = none;
    text = some reason;
  }

module _ (fix : Fix) (codec : Codec) where
  -- `onMessage`: the `try` block and its `catch`. `exec_id` is the identifier that a report gets.
  abbrev pub respond : Locals × Outcome Container → (exec_id : String) → Outcome (Call fix codec)
  respond (l, ok c) exec_id = ok (send (serialize_container codec c))
  respond (l, err e) exec_id =
      if is_exception e
      then ok
          (send_to_target (rejection fix l exec_id (fix.what e)) l.target_comp_id l.sender_comp_id)
      else err e

  abbrev pub contained :
      {A : Type 0} → (A → Container) → Locals × Outcome A → Locals × Outcome Container
  contained f (l, r) = (l, r >>= λ a. ok (f a))

  unfoldable pub on_new_order_single : Message fix → (exec_id : String) → Outcome (Call fix codec)
  unfolding receive_new_order
  on_new_order_single m exec_id =
      respond (contained Container.new_order_single (receive_new_order fix m)) exec_id

  unfoldable pub on_order_cancel_request :
      Message fix → (exec_id : String) → Outcome (Call fix codec)
  unfolding receive_cancel_request
  on_order_cancel_request m exec_id =
      respond (contained Container.cancel_order_request (receive_cancel_request fix m)) exec_id

  -- "Simple translation mappings"
  unfoldable pub exec_type_to_fix : ExecTypeOrOrderStatus → ℕ
  exec_type_to_fix ExecTypeOrOrderStatus.status_filled = fix.exec_type_fill
  exec_type_to_fix ExecTypeOrOrderStatus.status_partially_filled = fix.exec_type_partial_fill
  exec_type_to_fix ExecTypeOrOrderStatus.status_canceled = fix.exec_type_canceled
  exec_type_to_fix ExecTypeOrOrderStatus.status_rejected = fix.exec_type_rejected
  exec_type_to_fix ExecTypeOrOrderStatus.status_new = fix.exec_type_new
  exec_type_to_fix ExecTypeOrOrderStatus.status_pending_cancel = fix.exec_type_new

  unfoldable pub ord_status_to_fix : ExecTypeOrOrderStatus → ℕ
  ord_status_to_fix ExecTypeOrOrderStatus.status_filled = fix.ord_status_filled
  ord_status_to_fix ExecTypeOrOrderStatus.status_partially_filled = fix.ord_status_partially_filled
  ord_status_to_fix ExecTypeOrOrderStatus.status_canceled = fix.ord_status_canceled
  ord_status_to_fix ExecTypeOrOrderStatus.status_rejected = fix.ord_status_rejected
  ord_status_to_fix ExecTypeOrOrderStatus.status_new = fix.ord_status_new
  ord_status_to_fix ExecTypeOrOrderStatus.status_pending_cancel = fix.ord_status_new

  -- An amount in units of the last decimal, as a number with a decimal point.
  abbrev pub decimal : ℤ → fix.Double
  decimal z = fix.divide (fix.of_int z) (decimal_to_int_multiplier fix)

  -- The same, as the field that a report has for it is read.
  abbrev pub decimal_field : ℤ → fix.Double
  decimal_field z = fix.as_field (decimal z)

  unfoldable pub report_fields : ExecutionReport → (order_qty : ℤ) → Report fix
  unfolding exec_type_to_fix ord_status_to_fix
  report_fields r order_qty = record {
    order_id = fix.to_string r.order_id;
    exec_id = r.exec_id;
    exec_trans_type = fix.exec_trans_type_new;
    exec_type = exec_type_to_fix r.exec_type;
    ord_status = ord_status_to_fix r.ord_status;
    symbol = r.symbol;
    side = some (side_to_fix fix r.side);
    leaves_qty = decimal_field r.leaves_qty;
    cum_qty = decimal_field r.cum_qty;
    avg_px = decimal_field r.avg_px;
    cl_ord_id = fix.to_string r.cl_order_id;
    order_qty = some (decimal_field order_qty);
    last_px = some (fix.as_field (fix.of_int (pos 0)));
    orig_cl_ord_id = map_option fix.to_string r.orig_cl_ord_id;
    price = map_option decimal_field r.price;
    text = r.text;
  }

  unfoldable pub fix_report_of : ExecutionReport → Outcome (Report fix)
  unfolding report_fields ◌+ℤ◌
  fix_report_of r = do order_qty ← int32 (r.leaves_qty +ℤ r.cum_qty); ok (report_fields r order_qty)

  -- The visitor, which passes over other containers.
  unfoldable pub visit : Container → Outcome (Option (Call fix codec))
  unfolding fix_report_of
  visit (Container.execution_report r) = do
    report ← fix_report_of r
    ok (some (send_to_target report r.sender_comp_id r.target_comp_id))
  visit _ = ok none

  -- `catch (const std::exception &)`, which logs.
  abbrev pub catch : {A : Type 0} → Outcome (Option A) → Outcome (Option A)
  catch (ok a) = ok a
  catch (err e) = if is_exception e then ok none else err e

  -- `process_report`, where the queue of the connection has a message or not
  unfoldable pub process_report : Option codec.Bytes → Outcome (Option (Call fix codec))
  unfolding visit
  process_report none = ok none
  process_report (some new_message) = catch (deserialize_container codec new_message >>= visit)
