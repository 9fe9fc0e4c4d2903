-- ===== src/Gateway/Forwarding.antt =====
-- The way of an order from a FIX message to the order manager.
use elsa_fyp.Prelude.{
  ℕ, ◌≡◌, refl, Bool, true, false, ◌||◌, not, String, ok, err, ◌>>=◌, ◌>>◌, assertion, logic_error,
  require, arith,
}
use elsa_fyp.Core.Orders.{Side, OrderType, TimeInForce}
use elsa_fyp.Core.Containers.{Container, NewOrderSingle}
use elsa_fyp.Transport.Proto.{Codec}
use elsa_fyp.Transport.Decoding.{serialize_container, deserialize_container}
use elsa_fyp.Transport.RoundTrip.{RoundTrips, deserialize-serialize}
use elsa_fyp.Gateway.Fix.{
  Fix, Message, side_from_fix, ord_type_from_fix, tif_from_fix, side_to_fix, ord_type_to_fix,
  tif_to_fix,
}
use elsa_fyp.Gateway.Application.{send, new_order_of, receive_new_order, on_new_order_single}
use elsa_fyp.Gateway.Carried.{CarriesOrder}

-- The constants as FIX 4.2 has them.
pub record IsFix42 (fix : Fix) : Type 0 where
  pub side_buy : fix.side_buy ≡ 49
  pub side_sell : fix.side_sell ≡ 50
  pub ord_type_market : fix.ord_type_market ≡ 49
  pub ord_type_limit : fix.ord_type_limit ≡ 50
  pub time_in_force_day : fix.time_in_force_day ≡ 48
  pub time_in_force_gtc : fix.time_in_force_gtc ≡ 49

-- Each value that `convert_to_fix` gives is read back by `convert_to_internal`, with the constants
-- of FIX 4.2. Only the time in force GTC, which `convert_to_internal` reads, is not written.
pub convert_to_internal-convert_to_fix :
    (fix : Fix)
    → IsFix42 fix
    → ((s : Side) → side_from_fix fix (side_to_fix fix s) ≡ ok s)
      × ((t : OrderType) → ord_type_from_fix fix (ord_type_to_fix fix t) ≡ ok t)
      × ((tif_to_fix fix TimeInForce.day >>= tif_from_fix fix) ≡ ok TimeInForce.day)
      × (tif_from_fix fix fix.time_in_force_gtc ≡ ok TimeInForce.gtc)
      × ((k : ℕ) → tif_to_fix fix TimeInForce.gtc ≡ ok k → ⊥)
unfolding side_from_fix ord_type_from_fix tif_from_fix tif_to_fix
convert_to_internal-convert_to_fix fix h = (
  sides,
  types,
  ground (arith, h.time_in_force_day),
  rw (h.time_in_force_day, h.time_in_force_gtc) refl,
  unwritten,
)
  where
    sides : (s : Side) → side_from_fix fix (side_to_fix fix s) ≡ ok s
    sides Side.bid = rw h.side_buy refl
    sides Side.ask = rw (h.side_buy, h.side_sell) refl

    types : (t : OrderType) → ord_type_from_fix fix (ord_type_to_fix fix t) ≡ ok t
    types OrderType.limit = rw h.ord_type_limit refl
    types OrderType.market = rw (h.ord_type_limit, h.ord_type_market) refl

    unwritten : (k : ℕ) → tif_to_fix fix TimeInForce.gtc ≡ ok k → ⊥
    unwritten k = off fix.asserts
      where
        off :
            (asserts : Bool)
            → (require (false || not asserts) assertion >> err logic_error) ≡ ok k
            → ⊥
        off true e = cc
        off false e = cc

-- Where protobuf parses what it wrote, an order that a message carries reaches the order manager
-- unchanged: the handler sends bytes from which the order manager reads that order. The conversions
-- of the fields succeed, as carrying says.
pub on_new_order_single-forwards :
    (fix : Fix) (codec : Codec)
    → RoundTrips codec
    → (m : Message fix) (exec_id : String) (c : NewOrderSingle) → CarriesOrder fix m c
    → (bytes : codec.Bytes) × (on_new_order_single fix codec m exec_id ≡ ok (send bytes))
      × (deserialize_container codec bytes ≡ ok (Container.new_order_single c))
unfolding on_new_order_single receive_new_order new_order_of
on_new_order_single-forwards fix codec parses m exec_id c h = (
  serialize_container codec (Container.new_order_single c),
  sent,
  deserialize-serialize codec parses (Container.new_order_single c),
)
  where
    sent :
        on_new_order_single fix codec m exec_id
        ≡ ok (send (serialize_container codec (Container.new_order_single c)))
    sent =
        rw
          (
            h.sender_comp_id,
            h.target_comp_id,
            h.cl_ord_id.found,
            h.symbol,
            h.side.found,
            h.order_qty.found,
            h.ord_type.found,
            h.price.found,
            h.time_in_force.found,
            h.cl_ord_id.converts,
            h.side.converts,
            h.order_qty.converts,
            h.ord_type.converts,
            h.price.converts,
            h.time_in_force.converts,
            ← h.order_id,
          )
          refl
