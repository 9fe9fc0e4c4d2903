-- ===== src/Gateway/Carried.antt =====
-- What an inbound message carries, and what the `try` block of a handler makes of it.
use elsa_fyp.Prelude.{
  ◌≡◌, true, ℤ, String, Option, some, none, Outcome, ok, err, Fault, is_exception,
}
use elsa_fyp.Core.Containers.{NewOrderSingle, CancelOrderRequest}
use elsa_fyp.Gateway.Fix.{
  Fix, Message, side_from_fix, ord_type_from_fix, tif_from_fix, convert_to_internal_price,
  convert_to_internal_quantity,
}
use elsa_fyp.Gateway.Application.{Locals, price_field, convert_price, stoi_option}

-- A value that a conversion reads from a field.
pub record Reads {V A : Type 0} (field : Option V) (conversion : V → Outcome A) (a : A)
    : Type 0 where
  pub value : V
  pub found : field ≡ some value
  pub converts : conversion value ≡ ok a

module _ (fix : Fix) (m : Message fix) where
  -- The order that a message carries.
  pub record CarriesOrder (c : NewOrderSingle) : Type 0 where
    pub sender_comp_id : m.sender_comp_id ≡ some c.sender_comp_id
    pub target_comp_id : m.target_comp_id ≡ some c.target_comp_id
    pub order_id : c.order_id ≡ none
    pub cl_ord_id : Reads m.cl_ord_id fix.stoi c.cl_ord_id
    pub symbol : m.symbol ≡ some c.symbol
    pub side : Reads m.side (side_from_fix fix) c.side
    pub order_qty : Reads m.order_qty (convert_to_internal_quantity fix) c.order_qty
    pub ord_type : Reads m.ord_type (ord_type_from_fix fix) c.ord_type
    pub price : Reads (price_field fix ord_type.value m.price) (convert_price fix) c.price
    pub time_in_force : Reads m.time_in_force (tif_from_fix fix) c.time_in_force

  -- The cancel request that a message carries.
  pub record CarriesCancel (c : CancelOrderRequest) : Type 0 where
    pub sender_comp_id : m.sender_comp_id ≡ some c.sender_comp_id
    pub target_comp_id : m.target_comp_id ≡ some c.target_comp_id
    pub order_id : stoi_option fix m.order_id ≡ ok c.order_id
    pub orig_cl_ord_id : Reads m.orig_cl_ord_id fix.stoi c.orig_cl_ord_id
    pub cl_ord_id : Reads m.cl_ord_id fix.stoi c.cl_ord_id
    pub symbol : m.symbol ≡ some c.symbol
    pub side : Reads m.side (side_from_fix fix) c.side
    pub order_qty : Reads m.order_qty (convert_to_internal_quantity fix) c.order_qty

  -- The amounts of the message are in the range of the conversion.
  pub record InRange : Type 0 where
    pub order_qty :
        (q : fix.Double)
        → m.order_qty ≡ some q
        → (z : ℤ) × (convert_to_internal_quantity fix q ≡ ok z)
    pub price :
        (p : fix.Double) → m.price ≡ some p → (z : ℤ) × (convert_to_internal_price fix p ≡ ok z)

  -- A rejection goes back to the sender of the message, if its header tells.
  pub record Routed (l : Locals) : Type 0 where
    pub back :
        (sender target : String)
        → m.sender_comp_id ≡ some sender
        → m.target_comp_id ≡ some target
        → (l.sender_comp_id ≡ sender) × (l.target_comp_id ≡ target)

  pub data Read {A : Type 0} (Carries : A → Type 0) (r : Locals × Outcome A) : Type 0 where
    found : (l : Locals) (c : A) → Carries c → r ≡ (l, ok c) → Read Carries r
    failed :
        (l : Locals) (e : Fault)
        → is_exception e ≡ true
        → Routed l
        → r ≡ (l, err e)
        → Read Carries r
