-- ===== src/Tests/Gateway.antt =====
-- A gateway that computes with fractions and reads one number.
use elsa_fyp.Prelude.{
  ℕ, ◌/◌, ◌≡◌, refl, int32, Bool, true, false, ℤ, pos, ◌+ℤ◌, ◌*ℤ◌, String, some, none, Outcome, ok,
  err, Fault, invalid_argument, if◌then◌else◌, eqb, string_eq, ◌>>=◌,
}
use elsa_fyp.Core.Orders.{Side, OrderType, TimeInForce, ExecTransType, status_filled}
use elsa_fyp.Core.Containers.{Container, NewOrderSingle, ExecutionReport}
use elsa_fyp.Transport.Decoding.{serialize_container, deserialize_container, text_of}
use elsa_fyp.Gateway.Fix.{
  Fix, Message, Report, side_from_fix, ord_type_from_fix, tif_from_fix, side_to_fix, tif_to_fix,
  ord_type_to_fix, convert_to_internal_price, convert_to_internal_quantity,
}
use elsa_fyp.Gateway.Application.{
  send, send_to_target, on_new_order_single, receive_new_order, new_order_of, process_report,
  exec_type_to_fix, ord_status_to_fix,
}
use elsa_fyp.Gateway.Carried.{CarriesOrder}
use elsa_fyp.Gateway.Forwarding.{
  IsFix42, convert_to_internal-convert_to_fix, on_new_order_single-forwards,
}
use elsa_fyp.Gateway.Reports.{HasStatuses, process_report-delivers}
use elsa_fyp.Tests.Wire.{plain}

abbrev pub Fraction : Type 0
Fraction = ℤ × ℤ

abbrev pub truncated : Fraction → ℤ
truncated (pos a, pos b) = pos (a / b)
truncated _ = pos 0

-- What does not fit is undefined.
abbrev pub within_int32 : Fraction → Outcome ℤ
within_int32 x = int32 (truncated x)

-- Decimal text with two digits after the point.
abbrev pub two_decimals : Fraction → Fraction
two_decimals x = (truncated (x.0 *ℤ pos 100, x.1), pos 100)

abbrev pub stoi_seven : String → Outcome ℤ
stoi_seven t = if eqb t "7" then ok (pos 7) else err invalid_argument

abbrev pub fix42 : Bool → Fix
fix42 asserts = record {
  side_buy = 49;
  side_sell = 50;
  ord_type_market = 49;
  ord_type_limit = 50;
  time_in_force_day = 48;
  time_in_force_gtc = 49;
  exec_trans_type_new = 48;
  exec_type_new = 48;
  exec_type_partial_fill = 49;
  exec_type_fill = 50;
  exec_type_canceled = 52;
  exec_type_rejected = 56;
  ord_status_new = 48;
  ord_status_partially_filled = 49;
  ord_status_filled = 50;
  ord_status_canceled = 52;
  ord_status_rejected = 56;
  Double = Fraction;
  of_int = λ z. (z, pos 1);
  multiply = λ x y. (x.0 *ℤ y.0, x.1 *ℤ y.1);
  divide = λ x y. (x.0 *ℤ y.1, x.1 *ℤ y.0);
  int_of = within_int32;
  as_field = two_decimals;
  stoi = stoi_seven;
  to_string = λ z. "7";
  what = λ e. "error";
  asserts = asserts;
}

-- A limit order of 2.5 units at 10.25.
abbrev limit_order : Bool → Message (fix42 false)
limit_order b = record {
  sender_comp_id = some "ann";
  target_comp_id = some "hk01";
  cl_ord_id = some "7";
  order_id = none;
  orig_cl_ord_id = some "7";
  symbol = some "AAPL";
  side = some 49;
  order_qty = some (pos 5, pos 2);
  ord_type = some 50;
  price = some (pos 41, pos 4);
  time_in_force = if b then some 48 else none;
}

abbrev carried : NewOrderSingle
carried = record {
  sender_comp_id = "ann";
  target_comp_id = "hk01";
  order_id = none;
  cl_ord_id = pos 7;
  symbol = "AAPL";
  side = Side.bid;
  order_qty = pos 250;
  ord_type = OrderType.limit;
  price = some (pos 1025);
  time_in_force = TimeInForce.day;
}

test_forwarded :
    on_new_order_single (fix42 false) plain (limit_order true) "x"
    ≡ ok (send (serialize_container plain (Container.new_order_single carried)))
unfolding on_new_order_single receive_new_order new_order_of side_from_fix ord_type_from_fix
    tif_from_fix convert_to_internal_price convert_to_internal_quantity ◌*ℤ◌
test_forwarded = refl

abbrev pub constants : IsFix42 (fix42 true)
constants = record {
  side_buy = refl;
  side_sell = refl;
  ord_type_market = refl;
  ord_type_limit = refl;
  time_in_force_day = refl;
  time_in_force_gtc = refl;
}

convert_to_internal-convert_to_fix_example :
    ((s : Side) → side_from_fix (fix42 true) (side_to_fix (fix42 true) s) ≡ ok s)
    × ((t : OrderType) → ord_type_from_fix (fix42 true) (ord_type_to_fix (fix42 true) t) ≡ ok t)
    × ((tif_to_fix (fix42 true) TimeInForce.day >>= tif_from_fix (fix42 true)) ≡ ok TimeInForce.day)
    × (tif_from_fix (fix42 true) 49 ≡ ok TimeInForce.gtc)
    × ((k : ℕ) → tif_to_fix (fix42 true) TimeInForce.gtc ≡ ok k → ⊥)
convert_to_internal-convert_to_fix_example =
    convert_to_internal-convert_to_fix (fix42 true) constants

carries : CarriesOrder (fix42 false) (limit_order true) carried
unfolding side_from_fix ord_type_from_fix tif_from_fix convert_to_internal_price
    convert_to_internal_quantity ◌*ℤ◌
carries = record {
  sender_comp_id = refl;
  target_comp_id = refl;
  order_id = refl;
  symbol = refl;
  cl_ord_id = record { value = "7"; found = refl; converts = refl };
  side = record { value = 49; found = refl; converts = refl };
  order_qty = record { value = (pos 5, pos 2); found = refl; converts = refl };
  ord_type = record { value = 50; found = refl; converts = refl };
  price = record { value = some (pos 41, pos 4); found = refl; converts = refl };
  time_in_force = record { value = 48; found = refl; converts = refl };
}

on_new_order_single-forwards_example :
    (bytes : plain.Bytes) × (on_new_order_single (fix42 false) plain (limit_order true) "x"
      ≡ ok (send bytes))
    × (deserialize_container plain bytes ≡ ok (Container.new_order_single carried))
on_new_order_single-forwards_example =
    on_new_order_single-forwards (fix42 false) plain (λ w. refl) (limit_order true) "x" carried
      carries

abbrev pub statuses : HasStatuses (fix42 true)
statuses = record {
  exec_type_new = refl;
  exec_type_partial_fill = refl;
  exec_type_fill = refl;
  exec_type_canceled = refl;
  exec_type_rejected = refl;
  ord_status_new = refl;
  ord_status_partially_filled = refl;
  ord_status_filled = refl;
  ord_status_canceled = refl;
  ord_status_rejected = refl;
}

abbrev pub fill_report : ExecutionReport
fill_report = record {
  sender_comp_id = "hk01";
  target_comp_id = "ann";
  order_id = pos 7;
  cl_order_id = pos 7;
  orig_cl_ord_id = none;
  exec_id = "e";
  exec_trans_type = ExecTransType.exec_trans_new;
  exec_type = status_filled;
  ord_status = status_filled;
  text = none;
  symbol = "AAPL";
  side = Side.bid;
  price = some (pos 1025);
  time_in_force = TimeInForce.day;
  leaves_qty = pos 0;
  cum_qty = pos 250;
  avg_px = pos 1025;
}

process_report-delivers_example :
    (report : Report (fix42 true)) × (process_report
        (fix42 true)
        plain
        (some (serialize_container plain (Container.execution_report fill_report)))
      ≡ ok (some (send_to_target report "hk01" "ann")))
    × (report.order_id ≡ "7")
    × (report.cl_ord_id ≡ "7")
    × (report.orig_cl_ord_id ≡ none)
    × (report.exec_id ≡ "e")
    × (report.exec_trans_type ≡ 48)
    × (report.exec_type ≡ 50)
    × (report.ord_status ≡ 50)
    × (report.symbol ≡ "AAPL")
    × (report.side ≡ some 49)
    × (report.leaves_qty ≡ (pos 0, pos 100))
    × (report.cum_qty ≡ (pos 250, pos 100))
    × (report.avg_px ≡ (pos 1025, pos 100))
    × (report.order_qty ≡ some (pos 250, pos 100))
    × (report.price ≡ some (pos 1025, pos 100))
    × (report.last_px ≡ some (pos 0, pos 100))
    × (report.text ≡ some (text_of none))
unfolding ◌+ℤ◌ ◌*ℤ◌ exec_type_to_fix ord_status_to_fix
process_report-delivers_example =
    process_report-delivers (fix42 true) plain statuses (λ w. refl) fill_report refl

-- With assertions, a side that is not supported ends the process.
test_unsupported_side : side_from_fix (fix42 true) 53 ≡ err Fault.assertion
unfolding side_from_fix
test_unsupported_side = refl
