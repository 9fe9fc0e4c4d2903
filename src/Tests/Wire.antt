-- ===== src/Tests/Wire.antt =====
-- A codec that keeps the wrapper as it is.
use elsa_fyp.Prelude.{pos, ◌≡◌, refl, some, none, ok}
use elsa_fyp.Core.Orders.{Side}
use elsa_fyp.Core.Containers.{Container}
use elsa_fyp.Transport.Proto.{Codec, Wrapper}
use elsa_fyp.Transport.Decoding.{serialize_container, deserialize_container}
use elsa_fyp.Transport.RoundTrip.{received, deserialize-serialize}

abbrev pub plain : Codec
plain = record { Bytes = Wrapper; serialize_as_string = λ w. w; parse_from_string = λ w. some w }

abbrev pub request : Container
request = Container.cancel_order_request (record {
  sender_comp_id = "ann";
  target_comp_id = "hk01";
  order_id = none;
  orig_cl_ord_id = pos 4;
  cl_ord_id = pos 5;
  symbol = "AAPL";
  side = Side.ask;
  order_qty = pos 10;
})

deserialize-serialize_example :
    deserialize_container plain (serialize_container plain request) ≡ ok (received request)
deserialize-serialize_example = deserialize-serialize plain (λ w. refl) request
