-- ===== src/Engine/Book.antt =====
-- services/matching_engine/src/limit_order_book.{h,cpp}: the book, and the operations on it that
-- make no trade. A `std::map` of levels is the list of its entries from the best price on: by
-- falling price for bids (`rbegin` first), by rising price for asks (`begin` first). An iterator
-- into the list of a level names the side, the level and the order; ids are unique while they live.
use elsa_fyp.Prelude.{
  ℕ, zero, suc, ◌+◌, ◌-◌, ◌*◌, ltb, leb, ◌==◌, if◌then◌else◌, Bool, false, Option, none, some, List,
  [], ◌∷◌, String, Map, nat_eq, lookup, erase, contains, length, get_elem?, Outcome, ok, contract,
  assertion, out_of_bounds, out_of_range, require, or_fault, nat32, ◌>>=◌, ◌>>◌, ℤ, pos, negsuc,
}
use elsa_fyp.Core.Orders.{Side, order_book_aggregate_levels}
use elsa_fyp.Engine.Order.{Order, Trade, len, fits_buffer, max_ticker_length}

abbrev pub Level : Type 0
Level = ℕ × List Order

abbrev pub SideContainer : Type 0
SideContainer = List Level

pub record Iterator : Type 0 where
  pub side : Side
  pub price : ℕ
  pub order_id : ℕ

pub record LimitOrderBook : Type 0 where
  pub ticker : String
  pub bids : SideContainer
  pub asks : SideContainer
  pub order_id_map : Map ℕ Iterator
  -- what the trade publisher was given, in order
  pub published : List Trade

pub record LevelAggregate : Type 0 where
  pub price : ℕ
  pub quantity : ℕ

-- The constructor.
abbrev pub empty_book : String → LimitOrderBook
empty_book ticker = record {
  ticker = ticker;
  bids = [];
  asks = [];
  order_id_map = [];
  published = [];
}

abbrev pub get_side : LimitOrderBook → Side → SideContainer
get_side b Side.bid = b.bids
get_side b Side.ask = b.asks

-- A write through `get_side_mut`.
abbrev pub set_side : LimitOrderBook → Side → SideContainer → LimitOrderBook
set_side b Side.bid m = record b { bids = m }
set_side b Side.ask m = record b { asks = m }

-- Price `p` is strictly better than `q` on this side.
abbrev pub better : Side → ℕ → ℕ → Bool
better Side.bid p q = ltb q p
better Side.ask p q = ltb p q

-- `m.at(price)`
unfoldable pub level_at : ℕ → SideContainer → Option (List Order)
level_at p [] = none
level_at p ((q, os) ∷ ls) = if q == p then some os else level_at p ls

unfoldable pub append_order : List Order → Order → List Order
append_order [] o = o ∷ []
append_order (x ∷ xs) o = x ∷ append_order xs o

-- `m[price].emplace(m[price].end(), …)`: a new level goes to its place in the order of prices.
unfoldable pub emplace_order : Side → Order → SideContainer → SideContainer
unfolding append_order
emplace_order s o [] = (o.price, o ∷ []) ∷ []
emplace_order s o ((q, os) ∷ ls) =
    if q == o.price
    then (q, append_order os o) ∷ ls
    else if better s o.price q
    then (o.price, o ∷ []) ∷ (q, os) ∷ ls
    else (q, os) ∷ emplace_order s o ls

-- `orders.erase(it)`
unfoldable pub erase_order : ℕ → List Order → List Order
erase_order id [] = []
erase_order id (o ∷ os) = if o.order_id == id then os else o ∷ erase_order id os

unfoldable pub find_order : ℕ → List Order → Option Order
find_order id [] = none
find_order id (o ∷ os) = if o.order_id == id then some o else find_order id os

-- Write back the orders of a level; a level with none is erased.
unfoldable pub put_level : ℕ → List Order → SideContainer → SideContainer
put_level p os [] = []
put_level p [] ((q, xs) ∷ ls) = if q == p then ls else (q, xs) ∷ put_level p [] ls
put_level p (o ∷ os) ((q, xs) ∷ ls) =
    if q == p then (q, o ∷ os) ∷ ls else (q, xs) ∷ put_level p (o ∷ os) ls

-- `*it`: none if the iterator dangles.
unfoldable pub dereference : LimitOrderBook → Iterator → Option Order
unfolding level_at find_order
dereference b it = elim (level_at it.price (get_side b it.side)) [
  | none ↦ none
  | some os ↦ find_order it.order_id os
]

unfoldable pub cancel_order : LimitOrderBook → ℕ → Outcome LimitOrderBook
unfolding dereference level_at erase_order put_level lookup contains erase
cancel_order b order_id = do
  require (contains order_id b.order_id_map) contract
  it ← or_fault (lookup order_id b.order_id_map) out_of_range
  order ← or_fault (dereference b it) out_of_range
  orders ← or_fault (level_at order.price (get_side b order.side)) out_of_range
  let rest = erase_order it.order_id orders
  let b' = set_side b order.side (put_level order.price rest (get_side b order.side))
  ok (record b' { order_id_map = erase order_id b.order_id_map })

-- `side_map.begin()->second.front()`; a level is never empty, else the access is undefined.
unfoldable pub get_best_order : LimitOrderBook → Side → Option Order
get_best_order b s = elim (get_side b s) [
  | [] ↦ none
  | level ∷ ls ↦ elim level.1 [ [] ↦ none | o ∷ os ↦ some o ]
]

-- The ids of resting orders are not negative.
unfoldable pub order_id_exists : LimitOrderBook → ℤ → Bool
unfolding contains
order_id_exists b (pos id) = contains id b.order_id_map
order_id_exists b (negsuc id) = false

unfoldable pub get_order_by_id : LimitOrderBook → ℕ → Outcome Order
unfolding dereference lookup contains
get_order_by_id b order_id = do
  require (contains order_id b.order_id_map) contract
  it ← or_fault (lookup order_id b.order_id_map) out_of_range
  or_fault (dereference b it) out_of_range

-- The loop of `get_level_aggregate`, in `int`.
unfoldable pub add_quantities : ℕ → List Order → Outcome ℕ
add_quantities acc [] = ok acc
add_quantities acc (o ∷ os) = do sum ← nat32 (acc + o.quantity); add_quantities sum os

unfoldable pub aggregate : Level → Outcome LevelAggregate
unfolding add_quantities
aggregate (p, os) = do
  quantity ← add_quantities 0 os
  require (ltb 0 p) contract
  require (ltb 0 quantity) contract
  ok (record { price = p; quantity = quantity })

unfoldable pub get_level_aggregate : LimitOrderBook → Side → ℕ → Outcome LevelAggregate
unfolding aggregate
get_level_aggregate b s level = do
  it ← or_fault (get_elem? (get_side b s) level) contract
  aggregate it

-- The loop of `get_fill_cost` over `i`, with `rounds` indices left.
unfoldable pub fill_cost_loop :
    (ℕ → Outcome LevelAggregate) → (rounds i quantity total : ℕ) → Outcome ℕ
fill_cost_loop level zero i quantity total = ok total
fill_cost_loop level (suc rounds) i quantity total = if quantity == 0 then ok total else (do
  a ← level i
  let part = if leb a.quantity quantity then a.quantity else quantity
  cost ← nat32 (a.price * part)
  total' ← nat32 (total + cost)
  fill_cost_loop level rounds (suc i) (quantity - part) total')

-- Ends with the postcondition that a cost is positive.
unfoldable pub get_fill_cost : LimitOrderBook → ℕ → Side → Outcome (Option ℕ)
unfolding get_level_aggregate fill_cost_loop
get_fill_cost b quantity s = do
  require (ltb 0 quantity) contract
  elim (get_side b s) [
    | [] ↦ ok none
    | level ∷ ls ↦ (do
      total ← fill_cost_loop (get_level_aggregate b s) (length (get_side b s)) 0 quantity 0
      require (ltb 0 total) contract
      ok (some total))
  ]

-- The first entries of one side's array of a snapshot; the rest of the array stays zero.
unfoldable pub top_levels : (rounds : ℕ) → SideContainer → Outcome (List LevelAggregate)
unfolding aggregate
top_levels zero ls = ok []
top_levels (suc n) [] = ok []
top_levels (suc n) (l ∷ ls) = do a ← aggregate l; rest ← top_levels n ls; ok (a ∷ rest)

-- `TopOrderBookLevelAggregates`, without its time.
pub record TopLevels : Type 0 where
  pub ticker : String
  pub bid_level_aggregates : List LevelAggregate
  pub ask_level_aggregates : List LevelAggregate

-- The constructor of the snapshot: its assertion on the ticker, and the terminating zero that it
-- writes at `length + 1` of an array of five, which is out of its bounds for a length of 4.
abbrev pub snapshot_ticker : String → Outcome String
snapshot_ticker ticker = do
  require (fits_buffer ticker max_ticker_length) assertion
  require (ltb (len ticker + 1) max_ticker_length) out_of_bounds
  ok ticker

unfoldable pub get_top_order_book_level_aggregate : LimitOrderBook → Outcome TopLevels
unfolding top_levels
get_top_order_book_level_aggregate b = do
  ticker ← snapshot_ticker b.ticker
  bids ← top_levels order_book_aggregate_levels b.bids
  asks ← top_levels order_book_aggregate_levels b.asks
  ok (record { ticker = ticker; bid_level_aggregates = bids; ask_level_aggregates = asks })
