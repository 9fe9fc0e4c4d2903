-- ===== src/Client/EndToEnd.antt =====
-- From the client through the gateway to the order manager, and back.
use elsa_fyp.Prelude.{
  ◌⊎◌, inl, inr, ◌≡◌, refl, subst, true, ◌==◌, if◌then◌else◌, ℤ, pos, ◌+ℤ◌, int32, String, some,
  none, Outcome, ok, err, Fault, field_not_found,
}
use elsa_fyp.Core.Orders.{
  Side, OrderType, TimeInForce, ExecTypeOrOrderStatus, status_new, status_partially_filled,
  status_filled, status_canceled, status_pending_cancel, status_rejected,
}
use elsa_fyp.Core.Containers.{Container, NewOrderSingle, ExecutionReport}
use elsa_fyp.Transport.Proto.{Codec}
use elsa_fyp.Transport.Decoding.{serialize_container, deserialize_container}
use elsa_fyp.Transport.RoundTrip.{RoundTrips, with_text}
use elsa_fyp.Gateway.Fix.{
  Fix, Message, Report, side_from_fix, side_to_fix, convert_to_internal_price,
  convert_to_internal_quantity,
}
use elsa_fyp.Gateway.Application.{
  send, send_to_target, Locals, respond, rejection, on_new_order_single, on_order_cancel_request,
  decimal_field, report_fields, ord_status_to_fix, process_report,
}
use elsa_fyp.Gateway.Forwarding.{
  IsFix42, convert_to_internal-convert_to_fix, on_new_order_single-forwards,
}
use elsa_fyp.Gateway.Reports.{HasStatuses, process_report_lem}
use elsa_fyp.Client.FixClient.{
  OrderSide, ClientTimeInForce, OrderStatus, Session, side_value, submit_limit_order,
  create_new_order_fix_request, status_of, on_execution_report,
}

abbrev pub internal_side : OrderSide → Side
internal_side OrderSide.buy = Side.bid
internal_side OrderSide.sell = Side.ask

-- The order that a client means, as the order manager writes it: price and quantity are whole
-- numbers of the last decimal.
abbrev pub limit_order_of :
    (fix : Fix)
    → Session
    → (ticker : String) (price quantity : ℤ) → OrderSide
    → (client_order_id : ℤ) → NewOrderSingle
limit_order_of fix s ticker price quantity side client_order_id = record {
  sender_comp_id = s.sender_comp_id;
  target_comp_id = s.target_comp_id;
  order_id = none;
  cl_ord_id = client_order_id;
  symbol = ticker;
  side = internal_side side;
  order_qty = quantity;
  ord_type = OrderType.limit;
  price = some price;
  time_in_force = TimeInForce.gtc;
}

side-converts :
    (fix : Fix)
    → IsFix42 fix
    → (side : OrderSide) → side_from_fix fix (side_value fix side) ≡ ok (internal_side side)
side-converts fix h OrderSide.buy = (convert_to_internal-convert_to_fix fix h).0 Side.bid
side-converts fix h OrderSide.sell = (convert_to_internal-convert_to_fix fix h).0 Side.ask

-- A connected client that submits a limit order with GTC sends one message, and the gateway sends
-- the order manager bytes from which it reads that order, with the price and the quantity that the
-- gateway converts from what it reads in the decimal text of the fields. Both are in range, the
-- constants are those of FIX 4.2, `stoi` reads the id that `to_string` wrote, and protobuf parses
-- what it wrote.
pub submit_limit_order-arrives :
    (fix : Fix) (codec : Codec)
    → IsFix42 fix
    → RoundTrips codec
    → (s : Session) (ticker : String) (price quantity : fix.Double) (side : OrderSide)
      (client_order_id : ℤ) (exec_id : String) (internal_price internal_quantity : ℤ)
    → convert_to_internal_price fix (fix.as_field price) ≡ ok internal_price
    → convert_to_internal_quantity fix (fix.as_field quantity) ≡ ok internal_quantity
    → fix.stoi (fix.to_string client_order_id) ≡ ok client_order_id
    → (m : Message fix) × (bytes : codec.Bytes) × (submit_limit_order fix
          (record { is_connected = true; session = some s })
          ticker
          price
          quantity
          side
          ClientTimeInForce.gtc
          client_order_id
        ≡ (true, some m))
      × (on_new_order_single fix codec m exec_id ≡ ok (send bytes))
      × (deserialize_container codec bytes
          ≡ ok (
              Container.new_order_single (
                limit_order_of fix s ticker internal_price internal_quantity side client_order_id)))
unfolding submit_limit_order create_new_order_fix_request
submit_limit_order-arrives fix codec h parses s ticker price quantity side client_order_id exec_id
      internal_price internal_quantity as_price as_quantity reads =
    let (sides, types, day, gtc, unwritten) = convert_to_internal-convert_to_fix fix h in
    let (bytes, sent, arrives) =
      on_new_order_single-forwards fix codec parses m exec_id
        (limit_order_of fix s ticker internal_price internal_quantity side client_order_id)
        (record {
          sender_comp_id = refl;
          target_comp_id = refl;
          order_id = refl;
          cl_ord_id = record {
            value = fix.to_string client_order_id;
            found = refl;
            converts = reads;
          };
          symbol = refl;
          side = record {
            value = side_value fix side;
            found = refl;
            converts = side-converts fix h side;
          };
          order_qty = record {
            value = fix.as_field quantity;
            found = refl;
            converts = as_quantity;
          };
          ord_type = record {
            value = fix.ord_type_limit;
            found = refl;
            converts = types OrderType.limit;
          };
          price = record {
            value = some (fix.as_field price);
            found = rw h.ord_type_limit refl;
            converts = rw as_price refl;
          };
          time_in_force = record { value = fix.time_in_force_gtc; found = refl; converts = gtc };
        }) in
    (m, bytes, refl, sent, arrives)
  where
    m : Message fix
    m = record (create_new_order_fix_request fix ticker quantity side client_order_id) {
      sender_comp_id = some s.sender_comp_id;
      target_comp_id = some s.target_comp_id;
      time_in_force = some fix.time_in_force_gtc;
      price = some (fix.as_field price);
      ord_type = some fix.ord_type_limit;
    }

-- The status that a client is told, where `memory` stood in the variable that the code does not set.
abbrev pub told : (memory : OrderStatus) → ExecTypeOrOrderStatus → OrderStatus
told memory status_new = OrderStatus.new
told memory status_pending_cancel = OrderStatus.new
told memory status_rejected = memory
told memory _ = OrderStatus.canceled

status_of-told :
    (fix : Fix) (codec : Codec)
    → HasStatuses fix
    → (memory : OrderStatus) (status : ExecTypeOrOrderStatus)
    → status_of fix memory (ord_status_to_fix fix codec status) ≡ told memory status
unfolding status_of ord_status_to_fix
status_of-told fix codec h memory status_new = rw h.ord_status_new refl
status_of-told fix codec h memory status_partially_filled =
    rw (h.ord_status_new, h.ord_status_partially_filled, h.ord_status_filled) refl
status_of-told fix codec h memory status_filled = rw (h.ord_status_new, h.ord_status_filled) refl
status_of-told fix codec h memory status_canceled =
    rw (h.ord_status_new, h.ord_status_partially_filled, h.ord_status_filled, h.ord_status_canceled)
      refl
status_of-told fix codec h memory status_pending_cancel = rw h.ord_status_new refl
status_of-told fix codec h memory status_rejected =
    rw
      (
        h.ord_status_new, h.ord_status_partially_filled, h.ord_status_filled, h.ord_status_canceled,
        h.ord_status_rejected,
      )
      refl

abbrev pub client_side : Side → OrderSide
client_side Side.bid = OrderSide.buy
client_side Side.ask = OrderSide.sell

side-told :
    (fix : Fix)
    → IsFix42 fix
    → (side : Side)
    → (if side_to_fix fix side == fix.side_buy then OrderSide.buy else OrderSide.sell)
      ≡ client_side side
side-told fix h Side.bid = rw h.side_buy refl
side-told fix h Side.ask = rw (h.side_sell, h.side_buy) refl

-- What the client makes of the fields of a report, with any quantity of the order.
pub report_fields-told :
    (fix : Fix) (codec : Codec)
    → IsFix42 fix
    → HasStatuses fix
    → (memory : OrderStatus) (r : ExecutionReport) (order_qty : ℤ)
    → fix.stoi (fix.to_string r.cl_order_id) ≡ ok r.cl_order_id
    → on_execution_report fix memory (report_fields fix codec r order_qty)
      ≡ ok (record {
        order_id = fix.to_string r.order_id;
        client_order_id = r.cl_order_id;
        ticker = r.symbol;
        side = client_side r.side;
        status = told memory r.ord_status;
        filled_qty = decimal_field fix codec (order_qty);
        last_px = fix.as_field (fix.of_int (pos 0));
        cumulated_filled_qty = decimal_field fix codec r.cum_qty;
        remaining_qty = decimal_field fix codec r.leaves_qty;
      })
unfolding on_execution_report report_fields
report_fields-told fix codec h k memory r order_qty reads =
    rw (reads, side-told fix h r.side, status_of-told fix codec k memory r.ord_status) refl

-- The bytes of a report of the order manager become one FIX message of the gateway, which tells the
-- client the same ticker and side and the same quantities, divided by the multiplier and as the
-- fields of the message are read, and the leaves and cumulated quantities together, which
-- are those of the whole order, as what this report filled. The client is told that the order
-- is new or canceled: a fill, a partial fill and a cancel are told as a cancel, an order with a
-- pending cancel as a new one, and a rejection as what stood in memory. The constants are those of
-- FIX 4.2, protobuf parses what it wrote, `stoi` reads the client order id that `to_string` wrote,
-- and the sum of the quantities is within `int`.
pub report-told :
    (fix : Fix) (codec : Codec)
    → IsFix42 fix
    → HasStatuses fix
    → RoundTrips codec
    → (memory : OrderStatus) (r : ExecutionReport)
    → int32 (r.leaves_qty +ℤ r.cum_qty) ≡ ok (r.leaves_qty +ℤ r.cum_qty)
    → fix.stoi (fix.to_string r.cl_order_id) ≡ ok r.cl_order_id
    → (report : Report fix) × (process_report fix codec
          (some (serialize_container codec (Container.execution_report r)))
        ≡ ok (some (send_to_target report r.sender_comp_id r.target_comp_id)))
      × (on_execution_report fix memory report
          ≡ ok (record {
            order_id = fix.to_string r.order_id;
            client_order_id = r.cl_order_id;
            ticker = r.symbol;
            side = client_side r.side;
            status = told memory r.ord_status;
            filled_qty = decimal_field fix codec (r.leaves_qty +ℤ r.cum_qty);
            last_px = fix.as_field (fix.of_int (pos 0));
            cumulated_filled_qty = decimal_field fix codec r.cum_qty;
            remaining_qty = decimal_field fix codec r.leaves_qty;
          }))
report-told fix codec h k parses memory r fits reads = (
  report_fields fix codec (with_text r) (r.leaves_qty +ℤ r.cum_qty),
  process_report_lem fix codec parses r fits,
  report_fields-told fix codec h k memory (with_text r) (r.leaves_qty +ℤ r.cum_qty) reads,
)

-- The reports that a handler answers with are rejections.
answered :
    (fix : Fix) (codec : Codec) (l : Locals) (o : Outcome Container) (exec_id : String)
    (report : Report fix) (sender target : String)
    → respond fix codec (l, o) exec_id ≡ ok (send_to_target report sender target)
    → (reason : String) × (rejection fix l exec_id reason ≡ report)
answered fix codec l (ok c) exec_id report sender target e = cc
answered fix codec l (err Fault.contract) exec_id report sender target e = cc
answered fix codec l (err Fault.assertion) exec_id report sender target e = cc
answered fix codec l (err Fault.overflow) exec_id report sender target e = cc
answered fix codec l (err Fault.out_of_bounds) exec_id report sender target e = cc
answered fix codec l (err Fault.out_of_range) exec_id report sender target e =
    (fix.what Fault.out_of_range, cc)
answered fix codec l (err Fault.bad_optional) exec_id report sender target e =
    (fix.what Fault.bad_optional, cc)
answered fix codec l (err Fault.terminate) exec_id report sender target e = cc
answered fix codec l (err Fault.invalid_argument) exec_id report sender target e =
    (fix.what Fault.invalid_argument, cc)
answered fix codec l (err Fault.logic_error) exec_id report sender target e =
    (fix.what Fault.logic_error, cc)
answered fix codec l (err Fault.runtime_error) exec_id report sender target e =
    (fix.what Fault.runtime_error, cc)
answered fix codec l (err Fault.field_not_found) exec_id report sender target e =
    (fix.what Fault.field_not_found, cc)

-- A report with which the gateway answers a new order or a cancel request never reaches
-- `on_order_update`: the client looks for the quantity of the order, which the gateway does not set
-- in a rejection, and fails.
pub rejection-lost :
    (fix : Fix) (codec : Codec) (m : Message fix) (exec_id : String) (memory : OrderStatus)
    (report : Report fix) (sender target : String)
    → (on_new_order_single fix codec m exec_id ≡ ok (send_to_target report sender target))
      ⊎ (on_order_cancel_request fix codec m exec_id ≡ ok (send_to_target report sender target))
    → on_execution_report fix memory report ≡ err field_not_found
unfolding on_execution_report on_new_order_single on_order_cancel_request
rejection-lost fix codec m exec_id memory report sender target (inl e) =
    let (reason, same) = answered fix codec _ _ exec_id report sender target e in
    subst (λ r. on_execution_report fix memory r ≡ err field_not_found) same refl
rejection-lost fix codec m exec_id memory report sender target (inr e) =
    let (reason, same) = answered fix codec _ _ exec_id report sender target e in
    subst (λ r. on_execution_report fix memory r ≡ err field_not_found) same refl
