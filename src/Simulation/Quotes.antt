-- ===== src/Simulation/Quotes.antt =====
-- What the market maker asks the exchange, and what it learns.
use elsa_fyp.Prelude.{
  ℕ, zero, suc, subst, none, ◌*◌, ◌≡◌, ◌≢◌, refl, sym, ap, ◌∙◌, true, false, ℤ, pos, String, some,
  List, [], ◌∷◌, ◌++◌, length, Map, insert, string_eq, lookup-insert_self, arith, ok, ok-injective,
}
use mathlib.Core.List.{append_assoc, append-nil}
use elsa_fyp.Core.Orders.{
  ExecTypeOrOrderStatus, status_new, status_partially_filled, status_filled, status_canceled,
  status_pending_cancel, status_rejected,
}
use elsa_fyp.Core.Containers.{ExecutionReport}
use elsa_fyp.Transport.Proto.{Codec}
use elsa_fyp.Gateway.Fix.{Fix, Message}
use elsa_fyp.Gateway.Application.{report_fields}
use elsa_fyp.Gateway.Forwarding.{IsFix42}
use elsa_fyp.Gateway.Reports.{HasStatuses}
use elsa_fyp.Client.FixClient.{
  OrderSide, side_value, OrderStatus, ClientReport, Connection, Session, submit_limit_order,
  client_cancel_order, on_execution_report, create_new_order_fix_request,
  create_cancel_order_fix_request,
}
use elsa_fyp.Client.EndToEnd.{told, report_fields-told}
use elsa_fyp.Simulation.MarketMaker.{
  Arithmetic, ActiveOrder, MmFixClient, next_id, orders_of, is_fill, send_order, cancel_orders,
  cancel_all_orders, on_order_update, quote_levels, place_quotes,
}

abbrev pub online : Session → Connection
online s = record { is_connected = true; session = some s }

module _ (fix : Fix) (s : Session) (ticker : String) where
  -- The message of a limit order, and of the cancel of one, with all their fields.
  abbrev pub order_message : (price quantity : fix.Double) → OrderSide → (id : ℤ) → Message fix
  order_message price quantity side id = record {
    sender_comp_id = some s.sender_comp_id;
    target_comp_id = some s.target_comp_id;
    cl_ord_id = some (fix.to_string id);
    order_id = none;
    orig_cl_ord_id = none;
    symbol = some ticker;
    side = some (side_value fix side);
    order_qty = some (fix.as_field quantity);
    ord_type = some fix.ord_type_limit;
    price = some (fix.as_field price);
    time_in_force = some fix.time_in_force_gtc;
  }

  abbrev pub cancel_message : OrderSide → (orig id : ℤ) → Message fix
  cancel_message side orig id = record {
    sender_comp_id = some s.sender_comp_id;
    target_comp_id = some s.target_comp_id;
    cl_ord_id = some (fix.to_string id);
    order_id = none;
    orig_cl_ord_id = some (fix.to_string orig);
    symbol = some ticker;
    side = some (side_value fix side);
    order_qty = some (fix.as_field (fix.of_int (pos 0)));
    ord_type = none;
    price = none;
    time_in_force = none;
  }

  -- Each order is cancelled, in order, under an id of its own. The first number is the last id that
  -- was used before, the second the last one used.
  pub data Cancels : ℤ → List ActiveOrder → List (Message fix) → ℤ → Type 0 where
    done : {k : ℤ} → Cancels k [] [] k
    one :
        {k k' : ℤ} {o : ActiveOrder} {orders : List ActiveOrder} {messages : List (Message fix)}
        → Cancels (next_id k) orders messages k'
        → Cancels k (o ∷ orders) (cancel_message o.side o.id (next_id k) ∷ messages) k'

  -- Orders and their messages from level `i` on: a bid and an ask that lie `i` times the spacing away
  -- from the best prices, both for the lot and `i` halves of it.
  pub data Ladder (ops : Arithmetic fix) (lot half bid ask spacing : fix.Double)
      : ℕ → ℤ → List ActiveOrder → List (Message fix) → Type 0 where
    top : {i : ℕ} {k : ℤ} → Ladder ops lot half bid ask spacing i k [] []
    rung :
        {i : ℕ} {k : ℤ} {orders : List ActiveOrder} {messages : List (Message fix)}
        → Ladder ops lot half bid ask spacing (suc i) (next_id (next_id k)) orders messages
        → Ladder ops lot half bid ask spacing i k
            (record { id = next_id k; side = OrderSide.buy }
              ∷ record { id = next_id (next_id k); side = OrderSide.sell }
              ∷ orders)
            (order_message
                (ops.subtract bid (fix.multiply (fix.of_int (pos i)) spacing))
                (fix.multiply lot
                  (ops.add (fix.of_int (pos 1)) (fix.multiply (fix.of_int (pos i)) half)))
                OrderSide.buy
                (next_id k)
              ∷ order_message
                  (ops.add ask (fix.multiply (fix.of_int (pos i)) spacing))
                  (fix.multiply lot
                    (ops.add (fix.of_int (pos 1)) (fix.multiply (fix.of_int (pos i)) half)))
                  OrderSide.sell
                  (next_id (next_id k))
              ∷ messages)

module _ (fix : Fix) where
  -- 0.05, 0.5, and a quarter of the spread if that is more.
  abbrev pub half_of : fix.Double
  half_of = fix.divide (fix.of_int (pos 1)) (fix.of_int (pos 2))

  abbrev pub spacing_of : Arithmetic fix → (spread : fix.Double) → fix.Double
  spacing_of ops spread =
      ops.max (fix.divide (fix.of_int (pos 5)) (fix.of_int (pos 100)))
        (fix.multiply spread (fix.divide (fix.of_int (pos 1)) (fix.of_int (pos 4))))

  module _ (ops : Arithmetic fix) (s : Session) (ticker : String) where
    cancel_orders-Cancels :
        (orders : List ActiveOrder) (k : ℤ)
        → Cancels fix s ticker k orders
            (cancel_orders fix ops (online s) ticker orders k).1
            (cancel_orders fix ops (online s) ticker orders k).0
    unfolding cancel_orders client_cancel_order create_cancel_order_fix_request
    cancel_orders-Cancels [] k = Cancels.done
    cancel_orders-Cancels (order ∷ orders) k =
        Cancels.one (cancel_orders-Cancels orders (next_id k))

    -- What the loop adds to the orders that are known, and sends.
    record Quoted (lot half bid ask spacing : fix.Double) (i levels : ℕ)
        (before after : MmFixClient fix) (messages : List (Message fix)) : Type 0 where
      fresh : List ActiveOrder
      known : orders_of after.active_orders ticker ≡ orders_of before.active_orders ticker ++ fresh
      ladder :
          Ladder fix s ticker ops lot half bid ask spacing i before.order_id_counter fresh messages
      count : length messages ≡ 2 * levels

    orders_of-insert :
        (orders : List ActiveOrder) (m : Map String (List ActiveOrder))
        → orders_of (insert ticker orders m) ticker ≡ orders
    orders_of-insert orders m = rw (lookup-insert_self ticker orders m) refl

    -- Two orders that are inserted one after the other.
    orders_of-two :
        (b a : ActiveOrder) (m : Map String (List ActiveOrder)) (orders : List ActiveOrder)
        → orders_of
            (insert ticker
              (orders_of (insert ticker (orders ++ b ∷ []) m) ticker ++ a ∷ [])
              (insert ticker (orders ++ b ∷ []) m))
            ticker
          ≡ orders ++ b ∷ a ∷ []
    orders_of-two b a m orders =
        orders_of-insert _ _
        ∙ ap (λ l. l ++ a ∷ []) (orders_of-insert (orders ++ b ∷ []) m)
        ∙ append_assoc orders (b ∷ []) (a ∷ [])

    quote_levels-Quoted :
        (lot half bid ask spacing : fix.Double) (i levels : ℕ) (t : MmFixClient fix)
        → Quoted lot half bid ask spacing i levels t
            (quote_levels fix ops (online s) lot half ticker bid ask spacing i levels t).0
            (quote_levels fix ops (online s) lot half ticker bid ask spacing i levels t).1
    unfolding quote_levels send_order submit_limit_order create_new_order_fix_request
    quote_levels-Quoted lot half bid ask spacing i zero t = record {
      fresh = [];
      known = sym (append-nil _);
      ladder = Ladder.top;
      count = refl;
    }
    quote_levels-Quoted lot half bid ask spacing i (suc levels) t =
        let q = quote_levels-Quoted lot half bid ask spacing (suc i) levels _ in
        record {
          fresh = _;
          known =
              q.known
              ∙ ap (λ l. l ++ q.fresh)
                  (orders_of-two _ _ t.active_orders (orders_of t.active_orders ticker))
              ∙ append_assoc (orders_of t.active_orders ticker) _ q.fresh;
          ladder = Ladder.rung q.ladder;
          count = omega (arith, q.count);
        }

-- Where the market maker is connected and has a session, its quotes are messages that first cancel
-- each order that was active for the ticker, in order and with its side, and then place ten limit
-- orders with GTC: on each of five levels a bid and an ask, which lie that many spacings below and
-- above the best prices, for the lot and that many halves of it. Each message has
-- the next id. The orders that are active afterwards are these ten, in order, with their sides.
pub place_quotes-replaces :
    (fix : Fix) (ops : Arithmetic fix) (s : Session) (lot_size : fix.Double) (t : MmFixClient fix)
    (ticker : String) (bid_price ask_price spread : fix.Double)
    → (cancels quotes : List (Message fix)) × (last_id : ℤ) × ((place_quotes fix ops
          (online s)
          lot_size
          t
          ticker
          bid_price
          ask_price
          spread).1
        ≡ cancels ++ quotes)
      × Cancels fix s ticker t.order_id_counter (orders_of t.active_orders ticker) cancels last_id
      × Ladder fix s ticker ops lot_size
          (half_of fix)
          bid_price
          ask_price
          (spacing_of fix ops spread)
          0
          last_id
          (orders_of
            (place_quotes fix ops
              (online s)
              lot_size
              t
              ticker
              bid_price
              ask_price
              spread).0.active_orders
            ticker)
          quotes
      × (length quotes ≡ 10)
unfolding place_quotes cancel_all_orders
place_quotes-replaces fix ops s lot_size t ticker bid_price ask_price spread =
    let q =
      quote_levels-Quoted fix ops s ticker lot_size (half_of fix) bid_price ask_price
        (spacing_of fix ops spread) 0 5 (cancel_all_orders fix ops (online s) t ticker).0 in
    let (after, messages) =
      quote_levels fix ops (online s) lot_size (half_of fix) ticker bid_price ask_price
        (spacing_of fix ops spread) 0 5 (cancel_all_orders fix ops (online s) t ticker).0 in
    let known =
      q.known ∙ ap (λ l. l ++ q.fresh) (orders_of-insert fix ops s ticker [] t.active_orders) in
    (
      _,
      _,
      _,
      refl,
      cancel_orders-Cancels fix ops s ticker (orders_of t.active_orders ticker) t.order_id_counter,
      subst
          (λ orders.
            Ladder fix s ticker ops lot_size (half_of fix) bid_price ask_price
              (spacing_of fix ops spread) 0
              (cancel_all_orders fix ops (online s) t ticker).0.order_id_counter orders messages)
          (sym known) q.ladder,
      q.count,
    )

-- No report of the order manager but a rejection changes the inventory of the market maker: it
-- counts fills, and the client is told a fill as a cancel. The constants are those of FIX 4.2, and
-- `stoi` reads the client order id that `to_string` wrote.
pub on_order_update-unchanged :
    (fix : Fix) (ops : Arithmetic fix) (codec : Codec)
    → IsFix42 fix
    → HasStatuses fix
    → (memory : OrderStatus) (r : ExecutionReport) (order_qty : ℤ)
    → fix.stoi (fix.to_string r.cl_order_id) ≡ ok r.cl_order_id
    → r.ord_status ≢ status_rejected
    → (t : MmFixClient fix) (x : ClientReport fix)
    → on_execution_report fix memory (report_fields fix codec r order_qty) ≡ ok x
    → on_order_update fix ops t x ≡ t
unfolding on_order_update
on_order_update-unchanged fix ops codec h k memory r order_qty reads accepted t x e =
    let same = ok-injective (sym e ∙ report_fields-told fix codec h k memory r order_qty reads) in
    let status : is_fill x.status ≡ false =
      ap (λ y. is_fill y.status) same ∙ told-is_fill memory r.ord_status accepted in
    rw status refl
  where
    told-is_fill :
        (memory : OrderStatus) (status : ExecTypeOrOrderStatus)
        → status ≢ status_rejected
        → is_fill (told memory status) ≡ false
    told-is_fill memory status_new accepted = refl
    told-is_fill memory status_partially_filled accepted = refl
    told-is_fill memory status_filled accepted = refl
    told-is_fill memory status_canceled accepted = refl
    told-is_fill memory status_pending_cancel accepted = refl
    told-is_fill memory status_rejected accepted = absurd (accepted refl)
