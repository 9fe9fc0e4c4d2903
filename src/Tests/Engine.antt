-- ===== src/Tests/Engine.antt =====
-- A small market: two levels on each side, and orders that cross them.
use elsa_fyp.Prelude.{
  ℕ, ◌+◌, ◌*◌, pos, ◌≡◌, refl, true, false, some, none, ◌⊎◌, ◌<◌, List, [], ◌∷◌, ◌++◌, All, arith,
  Outcome, ok, err, nat_eq,
}
use elsa_fyp.Core.Orders.{Side}
use elsa_fyp.Engine.Order.{Order, Trade, Stamp}
use elsa_fyp.Engine.Book.{
  LimitOrderBook, Iterator, get_side, get_fill_cost, cancel_order, get_order_by_id,
}
use elsa_fyp.Engine.Match.{add_order, taker_of, is_market_price}
use elsa_fyp.Engine.Match.Spec.{Rests, traded, depth}
use elsa_fyp.Engine.Match.Adds.{Adds, add_order-Adds, add_order-depth}
use elsa_fyp.Engine.Match.Total.{add_order-returns}
use elsa_fyp.Engine.Match.Priority.{WithinLimit, BestFirst, add_order-BestFirst}
use elsa_fyp.Engine.Invariant.{IsValid}
use elsa_fyp.Engine.Invariant.Add.{add_order-IsValid}
use elsa_fyp.Engine.Invariant.Cancel.{Cancelled, cancel_order-Cancelled, cancel_order-returns}
use elsa_fyp.Engine.FillCost.Total.{get_fill_cost-returns}
use elsa_fyp.Engine.FillCost.{Foretold, market_price, get_fill_cost-add_order}

abbrev value_of : {A : Type 0} → A → Outcome A → A
value_of d (ok a) = a
value_of d (err e) = d

abbrev stamp : ℕ → Stamp
stamp k = record { trade_id = "id"; now_ts_ms = k }

abbrev order : ℕ → ℕ → ℕ → Side → Order
order id price quantity side = record {
  order_id = id;
  price = price;
  quantity = quantity;
  side = side;
  trader_id = "ann";
}

abbrev place : ℕ → ℕ → Side → ℕ × Iterator
place id price side = (id, record { side = side; price = price; order_id = id })

-- Asks at 101 and 103, bids at 99 and 98.
abbrev market : LimitOrderBook
market = record {
  ticker = "AAPL";
  bids =
      (99, order 3 99 5 Side.bid ∷ [])
      ∷ (98, order 4 98 7 Side.bid ∷ order 6 98 1 Side.bid ∷ [])
      ∷ [];
  asks =
      (101, order 1 101 4 Side.ask ∷ order 2 101 6 Side.ask ∷ [])
      ∷ (103, order 5 103 9 Side.ask ∷ [])
      ∷ [];
  order_id_map =
      place 1 101 Side.ask
      ∷ place 2 101 Side.ask
      ∷ place 3 99 Side.bid
      ∷ place 4 98 Side.bid
      ∷ place 5 103 Side.ask
      ∷ place 6 98 Side.bid
      ∷ [];
  published = [];
}

market-IsValid : IsValid market
market-IsValid = ground arith

-- A limit bid at 102 takes the level at 101 and rests.
abbrev crossed : LimitOrderBook × List Trade
unfolding add_order
crossed = value_of (market, []) (add_order stamp market [] 7 (pos 102) 12 Side.bid "bob")

crossed_run : add_order stamp market [] 7 (pos 102) 12 Side.bid "bob" ≡ ok crossed
unfolding add_order
crossed_run = refl

crossed_rests :
    (crossed.0.bids
      ≡ (102, record (order 7 102 2 Side.bid) { trader_id = "bob" } ∷ []) ∷ market.bids)
    × (traded crossed.1 ≡ 10)
unfolding add_order
crossed_rests = (refl, refl)

-- A market bid that takes both levels in part.
abbrev swept : LimitOrderBook × List Trade
unfolding add_order
swept =
    value_of (market, []) (add_order stamp market [] 7 (market_price Side.bid) 12 Side.bid "bob")

swept_run : add_order stamp market [] 7 (market_price Side.bid) 12 Side.bid "bob" ≡ ok swept
unfolding add_order
swept_run = refl

swept_cost : get_fill_cost market 12 Side.ask ≡ ok (some (10 * 101 + 2 * 103))
unfolding get_fill_cost
swept_cost = refl

abbrev without : LimitOrderBook
unfolding cancel_order
without = value_of market (cancel_order market 4)

without_run : cancel_order market 4 ≡ ok without
unfolding cancel_order
without_run = refl

add_order-IsValid_example : IsValid crossed.0
unfolding add_order
add_order-IsValid_example =
    add_order-IsValid stamp market [] 7 (pos 102) 12 Side.bid "bob" market-IsValid refl

add_order-Adds_example :
    Adds (taker_of stamp market 7 (pos 102) Side.bid "bob") 12 market [] crossed.0 crossed.1
unfolding add_order
add_order-Adds_example = add_order-Adds stamp market [] 7 (pos 102) 12 Side.bid "bob" refl

add_order-depth_example :
    (trades : List Trade) × (remaining : ℕ) × (crossed.1 ≡ [] ++ trades)
    × (traded trades + remaining ≡ 12)
    × (depth market.asks ≡ depth crossed.0.asks + traded trades)
    × Rests (taker_of stamp market 7 (pos 102) Side.bid "bob") remaining market.bids crossed.0.bids
    × (is_market_price (pos 102) ≡ true → crossed.0.bids ≡ market.bids)
    × (is_market_price (pos 102) ≡ false → depth crossed.0.bids ≡ depth market.bids + remaining)
unfolding add_order
add_order-depth_example = add_order-depth stamp market [] 7 (pos 102) 12 Side.bid "bob" refl

add_order-BestFirst_example :
    (trades : List Trade) × (swept.1 ≡ [] ++ trades)
    × All (WithinLimit Side.bid (market_price Side.bid)) trades
    × BestFirst Side.ask trades
unfolding add_order
add_order-BestFirst_example =
    add_order-BestFirst stamp market [] 7 (market_price Side.bid) 12 Side.bid "bob" market-IsValid
      refl

cancel_order-Cancelled_example : Cancelled market 4 without
unfolding cancel_order
cancel_order-Cancelled_example = cancel_order-Cancelled market 4 market-IsValid refl

get_fill_cost-add_order_example :
    (trades : List Trade) × (swept.1 ≡ [] ++ trades) × Foretold market.asks trades (some 1216)
unfolding add_order get_fill_cost
get_fill_cost-add_order_example =
    get_fill_cost-add_order stamp market [] 7 12 Side.bid "bob" market-IsValid (omega arith) refl
      refl

add_order-returns_example :
    (after : LimitOrderBook × List Trade) × (add_order stamp market [] 7 (pos 102) 12 Side.bid "bob"
      ≡ ok after)
unfolding add_order
add_order-returns_example =
    add_order-returns stamp market [] 7 (pos 102) 12 Side.bid "bob" refl
      (record { ticker = refl; broker = refl; ids = λ k. refl }) (ground arith)

cancel_order-returns_example : (b' : LimitOrderBook) × (cancel_order market 4 ≡ ok b')
unfolding cancel_order get_order_by_id
cancel_order-returns_example = cancel_order-returns market 4 market-IsValid refl

get_fill_cost-returns_example :
    ((get_side market Side.ask ≡ []) × (get_fill_cost market 12 Side.ask ≡ ok none))
    ⊎ ((c : ℕ) × (0 < c) × (get_fill_cost market 12 Side.ask ≡ ok (some c)))
get_fill_cost-returns_example =
    get_fill_cost-returns market 12 Side.ask market-IsValid (omega arith) (ground arith)
      (omega arith)
