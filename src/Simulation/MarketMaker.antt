-- ===== src/Simulation/MarketMaker.antt =====
-- simulation/traders/market_maker.h: the market maker's client, its quotes, and its market data.
use elsa_fyp.Prelude.{
  ℕ, zero, suc, if◌then◌else◌, Bool, true, false, ℤ, pos, negsuc, ◌+ℤ◌, eqb_ℤ, String, Option, some,
  none, List, [], ◌∷◌, ◌++◌, Map, lookup, insert, string_eq, int_max,
}
use elsa_fyp.Gateway.Fix.{Fix, Message}
use elsa_fyp.Client.FixClient.{
  OrderSide, ClientTimeInForce, OrderStatus, ClientReport, Connection, submit_limit_order,
  client_cancel_order,
}

-- The arithmetic on `double` that the traders use besides that of Fix.
pub record Arithmetic (fix : Fix) : Type 0 where
  pub add : fix.Double → fix.Double → fix.Double
  pub subtract : fix.Double → fix.Double → fix.Double
  pub max : fix.Double → fix.Double → fix.Double
  pub log : fix.Double → fix.Double
  pub positive : fix.Double → Bool
  pub is_zero : fix.Double → Bool

pub record ActiveOrder : Type 0 where
  pub id : ℤ
  pub side : OrderSide

-- The state of `MMFixClient`
pub record MmFixClient (fix : Fix) : Type 0 where
  pub inventory : Map String fix.Double
  pub active_orders : Map String (List ActiveOrder)
  pub order_id_counter : ℤ

-- `++` on `std::atomic<int>`, which wraps.
abbrev pub next_id : ℤ → ℤ
next_id z = if eqb_ℤ z (pos int_max) then negsuc int_max else z +ℤ pos 1

-- The orders of `m_active_orders[ticker]`, which are none at first.
abbrev pub orders_of : Map String (List ActiveOrder) → String → List ActiveOrder
orders_of m ticker = or_none (lookup ticker m)
  where
    or_none : Option (List ActiveOrder) → List ActiveOrder
    or_none none = []
    or_none (some orders) = orders

-- The message of a method, if it sends one.
abbrev pub sent : {M : Type 0} → Bool × Option M → List M
sent (result, none) = []
sent (result, some m) = m ∷ []

abbrev pub is_fill : OrderStatus → Bool
is_fill OrderStatus.filled = true
is_fill OrderStatus.partially_filled = true
is_fill _ = false

abbrev pub is_buy : OrderSide → Bool
is_buy OrderSide.buy = true
is_buy OrderSide.sell = false

module _ (fix : Fix) (ops : Arithmetic fix) where
  abbrev pub inventory_of : Option fix.Double → fix.Double
  inventory_of none = fix.of_int (pos 0)
  inventory_of (some q) = q

  abbrev pub get_inventory : MmFixClient fix → String → fix.Double
  get_inventory t ticker = inventory_of (lookup ticker t.inventory)

  unfoldable pub set_inventory : MmFixClient fix → String → fix.Double → MmFixClient fix
  set_inventory t ticker q = record t { inventory = insert ticker q t.inventory }

  unfoldable pub send_order :
      Connection
      → MmFixClient fix
      → (ticker : String) (price quantity : fix.Double) → OrderSide
      → MmFixClient fix × List (Message fix)
  unfolding submit_limit_order
  send_order connection t ticker price quantity side =
      let id = next_id t.order_id_counter in
      if connection.is_connected
      then (
        record t {
          order_id_counter = id;
          active_orders =
              insert ticker
                (orders_of t.active_orders ticker ++ record { id = id; side = side } ∷ [])
                t.active_orders;
        },
        sent
            (submit_limit_order fix connection ticker price quantity side ClientTimeInForce.gtc id),
      )
      else (t, [])

  -- The loop of `cancel_all_orders`: the counter, and what is sent.
  unfoldable pub cancel_orders :
      Connection → (ticker : String) → List ActiveOrder → ℤ → ℤ × List (Message fix)
  unfolding client_cancel_order
  cancel_orders connection ticker [] counter = (counter, [])
  cancel_orders connection ticker (order ∷ orders) counter =
      let cancel_id = next_id counter in
      let (last, messages) = cancel_orders connection ticker orders cancel_id in
      (
        last,
        sent (client_cancel_order fix connection ticker order.side order.id cancel_id) ++ messages,
      )

  unfoldable pub cancel_all_orders :
      Connection → MmFixClient fix → (ticker : String) → MmFixClient fix × List (Message fix)
  unfolding cancel_orders
  cancel_all_orders connection t ticker =
      let orders = orders_of t.active_orders ticker in
      let (counter, messages) = cancel_orders connection ticker orders t.order_id_counter in
      (
        record t { order_id_counter = counter; active_orders = insert ticker [] t.active_orders },
        messages,
      )

  unfoldable pub on_order_update : MmFixClient fix → ClientReport fix → MmFixClient fix
  unfolding set_inventory
  on_order_update t report =
      if is_fill report.status
      then set_inventory t report.ticker (
          if is_buy report.side
          then ops.add (get_inventory t report.ticker) report.filled_qty
          else ops.subtract (get_inventory t report.ticker) report.filled_qty)
      else t

  -- The loop of `place_quotes` from level `i` on, with `levels` levels left. `half` is 0.5.
  unfoldable pub quote_levels :
      Connection
      → (lot_size half : fix.Double) (ticker : String)
        (bid_price ask_price level_spacing : fix.Double)
      → (i levels : ℕ) → MmFixClient fix
      → MmFixClient fix × List (Message fix)
  unfolding send_order
  quote_levels connection lot_size half ticker bid_price ask_price level_spacing i zero t = (t, [])
  quote_levels connection lot_size half ticker bid_price ask_price level_spacing i (suc levels) t =
      let step = fix.multiply (fix.of_int (pos i)) level_spacing in
      let current_qty =
        fix.multiply lot_size
          (ops.add (fix.of_int (pos 1)) (fix.multiply (fix.of_int (pos i)) half)) in
      let (t1, bid) =
        send_order connection t ticker (ops.subtract bid_price step) current_qty OrderSide.buy in
      let (t2, ask) =
        send_order connection t1 ticker (ops.add ask_price step) current_qty OrderSide.sell in
      let (t3, rest) =
        quote_levels connection lot_size half ticker bid_price ask_price level_spacing (suc i)
          levels t2 in
      (t3, bid ++ ask ++ rest)

  -- 0.05, 0.25 and 0.5 are quotients of whole numbers.
  unfoldable pub place_quotes :
      Connection
      → (lot_size : fix.Double) → MmFixClient fix
      → (ticker : String) (bid_price ask_price spread : fix.Double)
      → MmFixClient fix × List (Message fix)
  unfolding cancel_all_orders quote_levels
  place_quotes connection lot_size t ticker bid_price ask_price spread =
      let (t1, cancels) = cancel_all_orders connection t ticker in
      let quarter = fix.divide (fix.of_int (pos 1)) (fix.of_int (pos 4)) in
      let half = fix.divide (fix.of_int (pos 1)) (fix.of_int (pos 2)) in
      let least = fix.divide (fix.of_int (pos 5)) (fix.of_int (pos 100)) in
      let level_spacing = ops.max least (fix.multiply spread quarter) in
      let (t2, quotes) =
        quote_levels connection lot_size half ticker bid_price ask_price level_spacing 0 5 t1 in
      (t2, cancels ++ quotes)
