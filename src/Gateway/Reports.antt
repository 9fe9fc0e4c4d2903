-- ===== src/Gateway/Reports.antt =====
-- The way of a report from the order manager to the client.
use elsa_fyp.Prelude.{ℕ, ◌≡◌, refl, ◌+ℤ◌, some, pos, map_option, ok, int32}
use elsa_fyp.Core.Orders.{
  ExecTypeOrOrderStatus, status_new, status_partially_filled, status_filled, status_canceled,
  status_pending_cancel, status_rejected,
}
use elsa_fyp.Core.Containers.{Container, ExecutionReport}
use elsa_fyp.Transport.Proto.{Codec}
use elsa_fyp.Transport.Decoding.{serialize_container, text_of}
use elsa_fyp.Transport.RoundTrip.{RoundTrips, deserialize-serialize, with_text}
use elsa_fyp.Gateway.Fix.{Fix, Report, side_to_fix}
use elsa_fyp.Gateway.Application.{
  send_to_target, exec_type_to_fix, ord_status_to_fix, report_fields, fix_report_of, visit,
  process_report,
}

-- The constants for the state of an order as FIX 4.2 has them, which are the same for both fields.
pub record HasStatuses (fix : Fix) : Type 0 where
  pub exec_type_new : fix.exec_type_new ≡ 48
  pub exec_type_partial_fill : fix.exec_type_partial_fill ≡ 49
  pub exec_type_fill : fix.exec_type_fill ≡ 50
  pub exec_type_canceled : fix.exec_type_canceled ≡ 52
  pub exec_type_rejected : fix.exec_type_rejected ≡ 56
  pub ord_status_new : fix.ord_status_new ≡ 48
  pub ord_status_partially_filled : fix.ord_status_partially_filled ≡ 49
  pub ord_status_filled : fix.ord_status_filled ≡ 50
  pub ord_status_canceled : fix.ord_status_canceled ≡ 52
  pub ord_status_rejected : fix.ord_status_rejected ≡ 56

-- FIX 4.2 on both fields: new 0, partially filled 1, filled 2, canceled 4, rejected 8. An order
-- whose cancel is pending is shown as new.
abbrev pub status_code : ExecTypeOrOrderStatus → ℕ
status_code status_new = 48
status_code status_partially_filled = 49
status_code status_filled = 50
status_code status_canceled = 52
status_code status_pending_cancel = 48
status_code status_rejected = 56

exec_type_to_fix-status_code :
    (fix : Fix) (codec : Codec)
    → HasStatuses fix
    → (s : ExecTypeOrOrderStatus) → exec_type_to_fix fix codec s ≡ status_code s
unfolding exec_type_to_fix
exec_type_to_fix-status_code fix codec h status_new = h.exec_type_new
exec_type_to_fix-status_code fix codec h status_partially_filled = h.exec_type_partial_fill
exec_type_to_fix-status_code fix codec h status_filled = h.exec_type_fill
exec_type_to_fix-status_code fix codec h status_canceled = h.exec_type_canceled
exec_type_to_fix-status_code fix codec h status_pending_cancel = h.exec_type_new
exec_type_to_fix-status_code fix codec h status_rejected = h.exec_type_rejected

ord_status_to_fix-status_code :
    (fix : Fix) (codec : Codec)
    → HasStatuses fix
    → (s : ExecTypeOrOrderStatus) → ord_status_to_fix fix codec s ≡ status_code s
unfolding ord_status_to_fix
ord_status_to_fix-status_code fix codec h status_new = h.ord_status_new
ord_status_to_fix-status_code fix codec h status_partially_filled = h.ord_status_partially_filled
ord_status_to_fix-status_code fix codec h status_filled = h.ord_status_filled
ord_status_to_fix-status_code fix codec h status_canceled = h.ord_status_canceled
ord_status_to_fix-status_code fix codec h status_pending_cancel = h.ord_status_new
ord_status_to_fix-status_code fix codec h status_rejected = h.ord_status_rejected

-- The bytes of a report that the order manager wrote, to the message that a session gets.
pub process_report_lem :
    (fix : Fix) (codec : Codec)
    → RoundTrips codec
    → (r : ExecutionReport) → int32 (r.leaves_qty +ℤ r.cum_qty) ≡ ok (r.leaves_qty +ℤ r.cum_qty)
    → process_report fix codec (some (serialize_container codec (Container.execution_report r)))
      ≡ ok (
          some (
            send_to_target
              (report_fields fix codec (with_text r) (r.leaves_qty +ℤ r.cum_qty))
              r.sender_comp_id
              r.target_comp_id))
unfolding process_report visit fix_report_of
process_report_lem fix codec parses r fits =
    rw (deserialize-serialize codec parses (Container.execution_report r), fits) refl

-- The multiplier of the amounts of the order manager.
abbrev pub hundred : (fix : Fix) → fix.Double
hundred fix = fix.of_int (pos 100)

-- Where protobuf parses what it wrote, a report that the order manager sent is delivered to the
-- session that its company ids name, with its identifiers, its symbol and side, its two states as
-- FIX 4.2 codes them but a pending cancel as new, its amounts and its price divided by the
-- multiplier and as the fields are read, the sum of its two quantities as the quantity of the order,
-- a last price of 0, and its text, or an empty one. The sum is within `int`.
pub process_report-delivers :
    (fix : Fix) (codec : Codec)
    → HasStatuses fix
    → RoundTrips codec
    → (r : ExecutionReport) → int32 (r.leaves_qty +ℤ r.cum_qty) ≡ ok (r.leaves_qty +ℤ r.cum_qty)
    → (report : Report fix) × (process_report fix codec
          (some (serialize_container codec (Container.execution_report r)))
        ≡ ok (some (send_to_target report r.sender_comp_id r.target_comp_id)))
      × (report.order_id ≡ fix.to_string r.order_id)
      × (report.cl_ord_id ≡ fix.to_string r.cl_order_id)
      × (report.orig_cl_ord_id ≡ map_option fix.to_string r.orig_cl_ord_id)
      × (report.exec_id ≡ r.exec_id)
      × (report.exec_trans_type ≡ fix.exec_trans_type_new)
      × (report.exec_type ≡ status_code r.exec_type)
      × (report.ord_status ≡ status_code r.ord_status)
      × (report.symbol ≡ r.symbol)
      × (report.side ≡ some (side_to_fix fix r.side))
      × (report.leaves_qty ≡ fix.as_field (fix.divide (fix.of_int r.leaves_qty) (hundred fix)))
      × (report.cum_qty ≡ fix.as_field (fix.divide (fix.of_int r.cum_qty) (hundred fix)))
      × (report.avg_px ≡ fix.as_field (fix.divide (fix.of_int r.avg_px) (hundred fix)))
      × (report.order_qty
          ≡ some (fix.as_field (fix.divide (fix.of_int (r.leaves_qty +ℤ r.cum_qty)) (hundred fix))))
      × (report.price
          ≡ map_option (λ p. fix.as_field (fix.divide (fix.of_int p) (hundred fix))) r.price)
      × (report.last_px ≡ some (fix.as_field (fix.of_int (pos 0))))
      × (report.text ≡ some (text_of r.text))
unfolding report_fields
process_report-delivers fix codec h parses r fits = (
  report_fields fix codec (with_text r) (r.leaves_qty +ℤ r.cum_qty),
  process_report_lem fix codec parses r fits,
  refl,
  refl,
  refl,
  refl,
  refl,
  exec_type_to_fix-status_code fix codec h r.exec_type,
  ord_status_to_fix-status_code fix codec h r.ord_status,
  refl,
  refl,
  refl,
  refl,
  refl,
  refl,
  refl,
  refl,
  refl,
)
