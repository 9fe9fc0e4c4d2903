-- ===== src/Transport/RoundTrip.antt =====
-- What the receiver of a message reads, against what the sender wrote.
use elsa_fyp.Prelude.{some, ◌≡◌, refl, arith, ok}
use elsa_fyp.Core.Orders.{Side, OrderType, TimeInForce, ExecTransType, ExecTypeOrOrderStatus}
use elsa_fyp.Core.Containers.{Container, ExecutionReport}
use elsa_fyp.Transport.Proto.{Wrapper, Codec}
use elsa_fyp.Transport.Messaging.{
  side_to_proto, side_to_internal, ord_type_to_proto, ord_type_to_internal, tif_to_proto,
  tif_to_internal, trans_to_proto, trans_to_internal, status_to_proto, status_to_internal, wrap,
}
use elsa_fyp.Transport.Decoding.{unwrap, text_of, serialize_container, deserialize_container}

side_round_trip : (s : Side) → side_to_internal (side_to_proto s) ≡ ok s
unfolding side_to_proto side_to_internal
side_round_trip Side.bid = refl
side_round_trip Side.ask = refl

ord_type_round_trip : (t : OrderType) → ord_type_to_internal (ord_type_to_proto t) ≡ ok t
unfolding ord_type_to_proto ord_type_to_internal
ord_type_round_trip OrderType.limit = refl
ord_type_round_trip OrderType.market = refl

tif_round_trip : (t : TimeInForce) → tif_to_internal (tif_to_proto t) ≡ ok t
unfolding tif_to_proto tif_to_internal
tif_round_trip TimeInForce.day = refl
tif_round_trip TimeInForce.gtc = refl

trans_round_trip : (t : ExecTransType) → trans_to_internal (trans_to_proto t) ≡ ok t
unfolding trans_to_proto trans_to_internal
trans_round_trip t = ground arith

status_round_trip : (t : ExecTypeOrOrderStatus) → status_to_internal (status_to_proto t) ≡ ok t
unfolding status_to_proto status_to_internal
status_round_trip t = ground arith

ruleset round_trips =
    (side_round_trip, ord_type_round_trip, tif_round_trip, trans_round_trip, status_round_trip)

-- A report arrives with a text, the empty one if it was sent without.
abbrev pub with_text : ExecutionReport → ExecutionReport
with_text r = record r { text = some (text_of r.text) }

-- What a container becomes on its way.
abbrev pub received : Container → Container
received (Container.execution_report r) = Container.execution_report (with_text r)
received (Container.new_order_single c) = Container.new_order_single c
received (Container.cancel_order_request c) = Container.cancel_order_request c
received (Container.fill_cost_query c) = Container.fill_cost_query c
received (Container.fill_cost_response c) = Container.fill_cost_response c
received (Container.trade c) = Container.trade c
received (Container.cancel_order_response c) = Container.cancel_order_response c

unwrap-wrap : (c : Container) → unwrap (wrap c) ≡ ok (received c)
unfolding unwrap wrap
unwrap-wrap (Container.new_order_single c) = simp round_trips
unwrap-wrap (Container.cancel_order_request c) = simp round_trips
unwrap-wrap (Container.execution_report c) = simp round_trips
unwrap-wrap (Container.fill_cost_query c) = simp round_trips
unwrap-wrap (Container.fill_cost_response c) = refl
unwrap-wrap (Container.trade c) = refl
unwrap-wrap (Container.cancel_order_response c) = refl

-- The generated code reads back what it wrote.
abbrev pub RoundTrips : Codec → Type 0
RoundTrips codec = (w : Wrapper) → codec.parse_from_string (codec.serialize_as_string w) ≡ some w

-- If the generated code reads back what it wrote, every container arrives as it was sent, but for
-- the text of an execution report: one sent without a text arrives with an empty text.
pub deserialize-serialize :
    (codec : Codec)
    → RoundTrips codec
    → (c : Container) → deserialize_container codec (serialize_container codec c) ≡ ok (received c)
unfolding deserialize_container serialize_container
deserialize-serialize codec h c = rw (h (wrap c)) (unwrap-wrap c)
