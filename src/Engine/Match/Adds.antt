-- ===== src/Engine/Match/Adds.antt =====
-- The whole of `add_order` against the abstract sweep: which trades it queues and publishes, and
-- what it leaves on both sides.
use elsa_fyp.Prelude.{
  ℕ, ◌+◌, ◌≡◌, ap, ◌∙◌, sym, subst, true, false, List, ◌++◌, String, ℤ, Map, arith, ok, Ensures,
  Ensures-ok, Ensures-bind, Ensures-step,
}
use elsa_fyp.Core.Orders.{Side, opposite}
use elsa_fyp.Engine.Order.{Trade, Stamp}
use elsa_fyp.Engine.Book.{SideContainer, Iterator, LimitOrderBook, get_side, set_side}
use elsa_fyp.Engine.Match.{
  Taker, Desk, is_market_price, rest_order, match_order, add_order, add_order_contract, taker_of,
}
use elsa_fyp.Engine.Match.Spec.{Sweeps, Rests, depth, traded}
use elsa_fyp.Engine.Match.Resting.{near_after, near_after-Rests, Rests-depth}
use elsa_fyp.Engine.Match.Refines.{LevelsSwept, match_levels-Sweeps}
use elsa_fyp.Engine.Match.Conservation.{Sweeps-depth}

-- What one order does to a book and to the queue of trades.
pub record Adds (t : Taker) (quantity : ℕ) (b : LimitOrderBook) (events : List Trade)
    (b' : LimitOrderBook) (events' : List Trade) : Type 0 where
  pub trades : List Trade
  pub remaining : ℕ
  pub swept :
      Sweeps t
        (get_side b (opposite t.side))
        quantity
        (get_side b' (opposite t.side))
        remaining
        trades
  pub near : Rests t remaining (get_side b t.side) (get_side b' t.side)
  pub queued : events' ≡ events ++ trades
  pub published : b'.published ≡ b.published ++ trades
  pub ticker : b'.ticker ≡ b.ticker

-- `rest_order` writes the near side alone.
module _ (t : Taker) (remaining : ℕ) (b : LimitOrderBook) where
  rest_order-far :
      get_side (rest_order t remaining b) (opposite t.side) ≡ get_side b (opposite t.side)
  unfolding rest_order
  rest_order-far = ground arith

  rest_order-near :
      get_side (rest_order t remaining b) t.side ≡ near_after t remaining (get_side b t.side)
  unfolding rest_order
  rest_order-near = ground arith

  rest_order-published : (rest_order t remaining b).published ≡ b.published
  unfolding rest_order
  rest_order-published = ground arith

  rest_order-ticker : (rest_order t remaining b).ticker ≡ b.ticker
  unfolding rest_order
  rest_order-ticker = ground arith

-- A book whose far side and logs were written anew.
module _ (s : Side) (b : LimitOrderBook) (far : SideContainer) (m : Map ℕ Iterator)
    (ts : List Trade) where
  far_written : LimitOrderBook
  far_written = record (set_side b (opposite s) far) { order_id_map = m; published = ts }

  far_written-far : get_side far_written (opposite s) ≡ far
  unfolding far_written
  far_written-far = ground arith

  far_written-near : get_side far_written s ≡ get_side b s
  unfolding far_written
  far_written-near = ground arith

  far_written-ticker : far_written.ticker ≡ b.ticker
  unfolding far_written
  far_written-ticker = ground arith

abbrev Added : Taker → ℕ → LimitOrderBook → List Trade → LimitOrderBook × List Trade → Type 0
Added t quantity b events (b', events') = Adds t quantity b events b' events'

match_order-Added :
    (t : Taker) (quantity : ℕ) (b : LimitOrderBook) (events : List Trade)
    → Ensures (Added t quantity b events) (match_order t quantity b events)
unfolding match_order far_written
match_order-Added t quantity b events =
    Ensures-bind (Added t quantity b events) (LevelsSwept t far quantity desk) _
      (λ (far', remaining, d). ok (
        rest_order t remaining (far_written t.side b far' d.order_id_map d.published),
        d.trade_events,
      ))
      (match_levels-Sweeps t far quantity desk)
      λ (far', remaining, d) (xs, sw, lg).
        let m = far_written t.side b far' d.order_id_map d.published in
        let same =
          rest_order-far t remaining m ∙ far_written-far t.side b far' d.order_id_map d.published in
        record {
          trades = xs;
          remaining = remaining;
          swept = rw same sw;
          near =
              subst (Rests t remaining (get_side b t.side))
                (sym (
                  rest_order-near t remaining m
                  ∙ ap (near_after t remaining)
                      (far_written-near t.side b far' d.order_id_map d.published)))
                (near_after-Rests t remaining (get_side b t.side));
          queued = lg.queued;
          published = rest_order-published t remaining m ∙ lg.published;
          ticker =
              rest_order-ticker t remaining m
              ∙ far_written-ticker t.side b far' d.order_id_map d.published;
        }
  where
    far : SideContainer
    far = get_side b (opposite t.side)

    desk : Desk
    desk = record { order_id_map = b.order_id_map; trade_events = events; published = b.published }

-- A call of `add_order` that returns has swept the far side in price-time priority and appended the
-- same trades to the queue and to the publisher's log. What is left of a limit order joins the near
-- side last in the queue of its price, or at a new level in the order of prices, with all other
-- levels and orders unchanged; if nothing is left, or of a market order, the near side
-- is unchanged.
pub add_order-Adds :
    (stamp : ℕ → Stamp) (b : LimitOrderBook) (events : List Trade) (order_id : ℕ) (price : ℤ)
    (quantity : ℕ) (side : Side) (broker_id : String) {b' : LimitOrderBook} {events' : List Trade}
    → add_order stamp b events order_id price quantity side broker_id ≡ ok (b', events')
    → Adds (taker_of stamp b order_id price side broker_id) quantity b events b' events'
unfolding add_order
add_order-Adds stamp b events order_id price quantity side broker_id {b'} {events'} e =
    Ensures-ok (Added t quantity b events) _
      (Ensures-step (Added t quantity b events)
        (add_order_contract b order_id price quantity broker_id)
        (λ _. match_order t quantity b events) λ _ _. match_order-Added t quantity b events)
      e
  where
    t : Taker
    t = taker_of stamp b order_id price side broker_id

-- If `add_order` returns, the quantity of the order is traded or left over, what is traded leaves
-- the far side, and what is left of a limit order is added to the near side, on which its order is
-- queued last at its price. A market order leaves the near side as it was.
pub add_order-depth :
    (stamp : ℕ → Stamp) (b : LimitOrderBook) (events : List Trade) (order_id : ℕ) (price : ℤ)
    (quantity : ℕ) (side : Side) (broker_id : String) {b' : LimitOrderBook} {events' : List Trade}
    → add_order stamp b events order_id price quantity side broker_id ≡ ok (b', events')
    → (trades : List Trade) × (remaining : ℕ) × (events' ≡ events ++ trades)
      × (traded trades + remaining ≡ quantity)
      × (depth (get_side b (opposite side)) ≡ depth (get_side b' (opposite side)) + traded trades)
      × Rests
          (taker_of stamp b order_id price side broker_id)
          remaining
          (get_side b side)
          (get_side b' side)
      × (is_market_price price ≡ true → get_side b' side ≡ get_side b side)
      × (is_market_price price ≡ false
          → depth (get_side b' side) ≡ depth (get_side b side) + remaining)
add_order-depth stamp b events order_id price quantity side broker_id e =
    let a = add_order-Adds stamp b events order_id price quantity side broker_id e in
    let (left, filled) = Sweeps-depth a.swept in
    let (market, limit) = Rests-depth a.near in
    (a.trades, a.remaining, a.queued, filled, left, a.near, market, limit)
