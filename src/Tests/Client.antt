-- ===== src/Tests/Client.antt =====
-- A client that buys, and a market maker that quotes.
use elsa_fyp.Prelude.{
  ◌≡◌, refl, true, false, ℤ, pos, ◌+ℤ◌, ◌*ℤ◌, ◌-ℤ◌, inl, some, none, List, [], ◌∷◌, ◌++◌, length,
  ok, err, field_not_found, string_eq, lookup, insert,
}
use elsa_fyp.Core.Containers.{Container}
use elsa_fyp.Transport.Decoding.{serialize_container, deserialize_container}
use elsa_fyp.Gateway.Fix.{
  Fix, Message, Report, convert_to_internal_price, convert_to_internal_quantity,
}
use elsa_fyp.Gateway.Application.{
  send, send_to_target, rejection, on_new_order_single, receive_new_order, decimal_field,
  process_report,
}
use elsa_fyp.Client.FixClient.{
  OrderSide, ClientTimeInForce, OrderStatus, ClientReport, Session, submit_limit_order,
  client_cancel_order, on_execution_report,
}
use elsa_fyp.Client.EndToEnd.{
  limit_order_of, submit_limit_order-arrives, report_fields-told, report-told, rejection-lost,
}
use elsa_fyp.Simulation.MarketMaker.{
  Arithmetic, MmFixClient, orders_of, cancel_all_orders, cancel_orders, place_quotes,
  on_order_update,
}
use elsa_fyp.Simulation.Quotes.{
  online, Cancels, Ladder, half_of, spacing_of, place_quotes-replaces, on_order_update-unchanged,
}
use elsa_fyp.Tests.Wire.{plain}
use elsa_fyp.Tests.Gateway.{fix42, constants, statuses, fill_report}

abbrev edge : Fix
edge = fix42 true

abbrev ann : Session
ann = record { sender_comp_id = "ann"; target_comp_id = "hk01" }

submit_limit_order-arrives_example :
    (m : Message edge) × (bytes : plain.Bytes) × (submit_limit_order edge
        (record { is_connected = true; session = some ann })
        "AAPL"
        (pos 41, pos 4)
        (pos 5, pos 2)
        OrderSide.buy
        ClientTimeInForce.gtc
        (pos 7)
      ≡ (true, some m))
    × (on_new_order_single edge plain m "x" ≡ ok (send bytes))
    × (deserialize_container plain bytes
        ≡ ok (
            Container.new_order_single
              (limit_order_of edge ann "AAPL" (pos 1025) (pos 250) OrderSide.buy (pos 7))))
unfolding convert_to_internal_price convert_to_internal_quantity ◌*ℤ◌
submit_limit_order-arrives_example =
    submit_limit_order-arrives edge plain constants (λ w. refl) ann "AAPL" (pos 41, pos 4)
      (pos 5, pos 2) OrderSide.buy (pos 7) "x" (pos 1025) (pos 250) refl refl refl

abbrev told_fill : ClientReport edge
told_fill = record {
  order_id = "7";
  client_order_id = pos 7;
  ticker = "AAPL";
  side = OrderSide.buy;
  status = OrderStatus.canceled;
  filled_qty = decimal_field edge plain (pos 250);
  last_px = edge.as_field (pos 0, pos 1);
  cumulated_filled_qty = decimal_field edge plain (pos 250);
  remaining_qty = decimal_field edge plain (pos 0);
}

report-told_example :
    (report : Report edge) × (process_report edge plain
        (some (serialize_container plain (Container.execution_report fill_report)))
      ≡ ok (some (send_to_target report "hk01" "ann")))
    × (on_execution_report edge OrderStatus.new report ≡ ok told_fill)
unfolding ◌+ℤ◌
report-told_example =
    report-told edge plain constants statuses (λ w. refl) OrderStatus.new fill_report refl refl

-- A limit order without a price.
abbrev priceless : Message edge
priceless = record {
  sender_comp_id = some "ann";
  target_comp_id = some "hk01";
  cl_ord_id = some "7";
  order_id = none;
  orig_cl_ord_id = none;
  symbol = some "AAPL";
  side = some 49;
  order_qty = some (pos 5, pos 2);
  ord_type = some 50;
  price = none;
  time_in_force = some 49;
}

abbrev refused : Report edge
refused =
    rejection edge
      (record {
        sender_comp_id = "ann";
        target_comp_id = "hk01";
        cl_ord_id = "7";
        symbol = "AAPL";
        side = some 49;
      })
      "x" "error"

rejection-lost_example : on_execution_report edge OrderStatus.new refused ≡ err field_not_found
unfolding on_new_order_single receive_new_order
rejection-lost_example =
    rejection-lost edge plain priceless "x" OrderStatus.new refused "hk01" "ann" (inl refl)

abbrev fractions : Arithmetic edge
fractions = record {
  add = λ x y. ((x.0 *ℤ y.1) +ℤ (y.0 *ℤ x.1), x.1 *ℤ y.1);
  subtract = λ x y. ((x.0 *ℤ y.1) -ℤ (y.0 *ℤ x.1), x.1 *ℤ y.1);
  max = λ x y. y;
  log = λ x. x;
  positive = λ x. true;
  is_zero = λ x. false;
}

abbrev maker : MmFixClient edge
maker = record {
  inventory = [];
  active_orders = ("AAPL", record { id = pos 7; side = OrderSide.buy } ∷ []) ∷ [];
  order_id_counter = pos 7;
}

abbrev quoted : MmFixClient edge × List (Message edge)
quoted =
    place_quotes edge fractions (online ann) (pos 1, pos 1) maker "AAPL" (pos 99, pos 1)
      (pos 101, pos 1) (pos 2, pos 1)

place_quotes-replaces_example :
    (cancels quotes : List (Message edge)) × (last_id : ℤ) × (quoted.1 ≡ cancels ++ quotes)
    × Cancels edge ann "AAPL" (pos 7) (orders_of maker.active_orders "AAPL") cancels last_id
    × Ladder edge ann "AAPL" fractions
        (pos 1, pos 1)
        (half_of edge)
        (pos 99, pos 1)
        (pos 101, pos 1)
        (spacing_of edge fractions (pos 2, pos 1))
        0
        last_id
        (orders_of quoted.0.active_orders "AAPL")
        quotes
    × (length quotes ≡ 10)
place_quotes-replaces_example =
    place_quotes-replaces edge fractions ann (pos 1, pos 1) maker "AAPL" (pos 99, pos 1)
      (pos 101, pos 1) (pos 2, pos 1)

abbrev forgotten : MmFixClient edge × List (Message edge)
forgotten =
    cancel_all_orders edge fractions (record { is_connected = false; session = some ann }) maker
      "AAPL"

-- Without a connection the order is forgotten, and no cancel is sent.
test_forgotten : (forgotten.1 ≡ []) × (orders_of forgotten.0.active_orders "AAPL" ≡ [])
unfolding cancel_all_orders cancel_orders client_cancel_order lookup insert
test_forgotten = (refl, refl)

on_order_update-unchanged_example : on_order_update edge fractions maker told_fill ≡ maker
on_order_update-unchanged_example =
    on_order_update-unchanged edge fractions plain constants statuses OrderStatus.new fill_report
      (pos 250) refl (λ e. cc) maker told_fill
      (report_fields-told edge plain constants statuses OrderStatus.new fill_report (pos 250) refl)
