-- ===== src/Client/FixClient.antt =====
-- client_sdk/include and client_sdk/src/fix_client.cpp: requests as FIX messages, and what a client
-- is told of reports.
use elsa_fyp.Prelude.{
  ℕ, ◌==◌, if◌then◌else◌, Bool, true, false, ℤ, pos, String, Option, some, none, Outcome, ok, ◌>>=◌,
  or_fault, field_not_found,
}
use elsa_fyp.Gateway.Fix.{Fix, Message, Report}

pub data OrderSide : Type 0 where
  buy sell : OrderSide

pub data ClientTimeInForce : Type 0 where
  gtc ioc : ClientTimeInForce

pub data OrderStatus : Type 0 where
  new filled partially_filled canceled : OrderStatus

-- `ExecutionReport`
pub record ClientReport (fix : Fix) : Type 0 where
  pub order_id : String
  pub client_order_id : ℤ
  pub ticker : String
  pub side : OrderSide
  pub status : OrderStatus
  pub filled_qty : fix.Double
  pub last_px : fix.Double
  pub cumulated_filled_qty : fix.Double
  pub remaining_qty : fix.Double

pub record Session : Type 0 where
  pub sender_comp_id : String
  pub target_comp_id : String

-- Whether the client is logged on, and the first of its sessions, if QuickFIX has it.
pub record Connection : Type 0 where
  pub is_connected : Bool
  pub session : Option Session

module _ (fix : Fix) where
  abbrev pub side_value : OrderSide → ℕ
  side_value OrderSide.buy = fix.side_buy
  side_value OrderSide.sell = fix.side_sell

  unfoldable pub create_new_order_fix_request :
      (ticker : String) (quantity : fix.Double) → OrderSide → (client_order_id : ℤ) → Message fix
  create_new_order_fix_request ticker quantity side client_order_id = record {
    sender_comp_id = none;
    target_comp_id = none;
    cl_ord_id = some (fix.to_string client_order_id);
    order_id = none;
    orig_cl_ord_id = none;
    symbol = some ticker;
    side = some (side_value side);
    order_qty = some (fix.as_field quantity);
    ord_type = none;
    price = none;
    time_in_force = none;
  }

  unfoldable pub create_cancel_order_fix_request :
      (ticker : String) → OrderSide → (orig_client_order_id client_order_id : ℤ) → Message fix
  create_cancel_order_fix_request ticker side orig_client_order_id client_order_id = record {
    sender_comp_id = none;
    target_comp_id = none;
    cl_ord_id = some (fix.to_string client_order_id);
    order_id = none;
    orig_cl_ord_id = some (fix.to_string orig_client_order_id);
    symbol = some ticker;
    side = some (side_value side);
    order_qty = some (fix.as_field (fix.of_int (pos 0)));
    ord_type = none;
    price = none;
    time_in_force = none;
  }

  -- `sendToTarget`, which fills in the header, and the result of the method. Without a session an
  -- exception is caught.
  abbrev pub send_to_session : Option Session → Message fix → Bool × Option (Message fix)
  send_to_session none m = (false, none)
  send_to_session (some s) m = (
    true,
    some (record m {
      sender_comp_id = some s.sender_comp_id;
      target_comp_id = some s.target_comp_id;
    }),
  )

  abbrev pub if_connected : Connection → Bool × Option (Message fix) → Bool × Option (Message fix)
  if_connected connection sent = if connection.is_connected then sent else (false, none)

  unfoldable pub submit_market_order :
      Connection
      → (ticker : String) (quantity : fix.Double) → OrderSide
      → (client_order_id : ℤ) → Bool × Option (Message fix)
  unfolding create_new_order_fix_request
  submit_market_order connection ticker quantity side client_order_id = if_connected connection (
      send_to_session connection.session
        (record (create_new_order_fix_request ticker quantity side client_order_id) {
          ord_type = some fix.ord_type_market;
          time_in_force = some fix.time_in_force_gtc;
        }))

  abbrev pub is_gtc : ClientTimeInForce → Bool
  is_gtc ClientTimeInForce.gtc = true
  is_gtc ClientTimeInForce.ioc = false

  unfoldable pub submit_limit_order :
      Connection
      → (ticker : String) (price quantity : fix.Double) → OrderSide
      → ClientTimeInForce
      → (client_order_id : ℤ) → Bool × Option (Message fix)
  unfolding create_new_order_fix_request
  submit_limit_order connection ticker price quantity side time_in_force client_order_id =
      if_connected connection (
        if is_gtc time_in_force
        then send_to_session connection.session
            (record (create_new_order_fix_request ticker quantity side client_order_id) {
              time_in_force = some fix.time_in_force_gtc;
              price = some (fix.as_field price);
              ord_type = some fix.ord_type_limit;
            })
        else (false, none))

  unfoldable pub client_cancel_order :
      Connection
      → (ticker : String) → OrderSide
      → (orig_client_order_id client_order_id : ℤ) → Bool × Option (Message fix)
  unfolding create_cancel_order_fix_request
  client_cancel_order connection ticker side orig_client_order_id client_order_id =
      if_connected connection (
        send_to_session connection.session
          (create_cancel_order_fix_request ticker side orig_client_order_id client_order_id))

  -- The cases of the `switch`, each of which goes on with the next one unless it ends in a `break`.
  abbrev pub case_canceled : OrderStatus → OrderStatus
  case_canceled status = OrderStatus.canceled

  abbrev pub case_partially_filled : OrderStatus → OrderStatus
  case_partially_filled status = case_canceled OrderStatus.partially_filled

  abbrev pub case_filled : OrderStatus → OrderStatus
  case_filled status = case_partially_filled OrderStatus.filled

  -- The status that a report sets, given the one that stood in its memory.
  unfoldable pub status_of : (memory : OrderStatus) → ℕ → OrderStatus
  status_of memory order_status =
      if order_status == fix.ord_status_new
      then OrderStatus.new
      else if order_status == fix.ord_status_filled
      then case_filled memory
      else if order_status == fix.ord_status_partially_filled
      then case_partially_filled memory
      else if order_status == fix.ord_status_canceled
      then case_canceled memory
      else memory

  -- `onMessage` for a report, up to the call of `on_order_update` with the result. The side of a
  -- rejection may have no value.
  unfoldable pub on_execution_report :
      (memory : OrderStatus) → Report fix → Outcome (ClientReport fix)
  unfolding status_of
  on_execution_report memory r = do
    order_qty ← or_fault r.order_qty field_not_found
    last_px ← or_fault r.last_px field_not_found
    client_order_id ← fix.stoi r.cl_ord_id
    side ← or_fault r.side field_not_found
    ok (record {
      order_id = r.order_id;
      client_order_id = client_order_id;
      ticker = r.symbol;
      side = if side == fix.side_buy then OrderSide.buy else OrderSide.sell;
      status = status_of memory r.ord_status;
      filled_qty = order_qty;
      last_px = last_px;
      cumulated_filled_qty = r.cum_qty;
      remaining_qty = r.leaves_qty;
    })

-- The callbacks of the session, and `disconnect`.
unfoldable pub on_logon : Connection → Connection
on_logon connection = record connection { is_connected = true }

unfoldable pub on_logout : Connection → Connection
on_logout connection = record connection { is_connected = false }

unfoldable pub disconnect : Connection → Connection
disconnect connection = record connection { is_connected = false }

-- `onMessage` for a rejected cancel, up to the call of `on_order_cancel_rejected`.
unfoldable pub on_order_cancel_reject :
    (fix : Fix) → (client_order_id text : Option String) → Outcome (ℤ × String)
on_order_cancel_reject fix client_order_id text = do
  id_text ← or_fault client_order_id field_not_found
  reason ← or_fault text field_not_found
  id ← fix.stoi id_text
  ok (id, reason)
