-- ===== src/Engine/Match.antt =====
-- `add_order` and `match_order` of services/matching_engine/src/limit_order_book.cpp. The trade
-- queue belongs to the engine and is shared by its books, so it is passed through.
pub mod Spec
pub mod Refines
pub mod Conservation
pub mod Adds
pub mod Resting
pub mod Total
pub mod Priority
use elsa_fyp.Prelude.{
  ℕ, ◌-◌, ltb, leb, ◌==◌, if◌then◌else◌, Bool, not, ◌&&◌, ◌||◌, List, [], ◌∷◌, ◌++◌, String, Map,
  nat_eq, insert, erase, contains, length, Outcome, ok, contract, require, ◌>>=◌, ◌>>◌, ℤ, pos,
  negsuc, pos_part, ltb_ℤ, eqb_ℤ, int_max,
}
use Prim.Native.String.{len}
use elsa_fyp.Core.Orders.{Side, opposite}
use elsa_fyp.Engine.Order.{Order, Trade, Stamp, fill, create_trade}
use elsa_fyp.Engine.Book.{
  Level, SideContainer, Iterator, LimitOrderBook, get_side, set_side, emplace_order,
}

-- INT_MAX and INT_MIN
abbrev pub market_bid_order_price : ℤ
market_bid_order_price = pos int_max

abbrev pub market_ask_order_price : ℤ
market_ask_order_price = negsuc int_max

-- The arguments of `match_order` that its loops do not change. The k-th trade of the book draws
-- the stamp `stamp k`.
pub record Taker : Type 0 where
  pub order_id : ℕ
  pub price : ℤ
  pub side : Side
  pub broker_id : String
  pub ticker : String
  pub stamp : ℕ → Stamp

-- What the loops write besides the far side.
pub record Desk : Type 0 where
  pub order_id_map : Map ℕ Iterator
  pub trade_events : List Trade
  pub published : List Trade

-- The trade of `quantity` units of the front order, published and queued.
unfoldable pub record_trade : Taker → Order → ℕ → Desk → Outcome Desk
unfolding create_trade
record_trade t o quantity d = do
  trade ←
      create_trade (t.stamp (length d.published)) t.order_id o.order_id t.broker_id o.trader_id
        t.ticker o.price quantity t.side
  ok (record d {
    trade_events = d.trade_events ++ trade ∷ [];
    published = d.published ++ trade ∷ [];
  })

-- The inner loop, over the orders of the best level.
unfoldable pub match_level : Taker → List Order → ℕ → Desk → Outcome (List Order × ℕ × Desk)
unfolding record_trade fill erase
match_level t [] remaining d = ok ([], remaining, d)
match_level t (o ∷ os) remaining d =
    if remaining == 0
    then ok (o ∷ os, remaining, d)
    else if leb o.quantity remaining
    then (do
      d' ← record_trade t o o.quantity d
      match_level t os (remaining - o.quantity)
          (record d' { order_id_map = erase o.order_id d'.order_id_map }))
    else (do o' ← fill o remaining; d' ← record_trade t o remaining d; ok (o' ∷ os, 0, d'))

-- The limit price does not admit a trade at the best level.
abbrev pub stops : Taker → ℕ → Bool
stops t best = elim t.side [
  | Side.bid ↦ ltb_ℤ t.price (pos best)
  | Side.ask ↦ ltb_ℤ (pos best) t.price
]

-- The outer loop. A level that is used up is erased; one that keeps orders has used up the
-- quantity, which ends the loop.
unfoldable pub match_levels : Taker → SideContainer → ℕ → Desk → Outcome (SideContainer × ℕ × Desk)
unfolding match_level
match_levels t [] remaining d = ok ([], remaining, d)
match_levels t ((p, os) ∷ ls) remaining d =
    if remaining == 0 || stops t p then ok ((p, os) ∷ ls, remaining, d) else (do
      (os', remaining', d') ← match_level t os remaining d
      elim os' [
        | [] ↦ match_levels t ls remaining' d'
        | o ∷ rest ↦ ok ((p, o ∷ rest) ∷ ls, remaining', d')
      ])

abbrev pub is_market_price : ℤ → Bool
is_market_price p = eqb_ℤ p market_bid_order_price || eqb_ℤ p market_ask_order_price

-- The last statement of `match_order`: what is left of a limit order rests on the near side. The
-- price is positive there, by the contract of `add_order`.
unfoldable pub rest_order : Taker → ℕ → LimitOrderBook → LimitOrderBook
unfolding emplace_order insert
rest_order t remaining b =
    if ltb 0 remaining && not (is_market_price t.price)
    then (let o : Order = record {
      order_id = t.order_id;
      price = pos_part t.price;
      quantity = remaining;
      side = t.side;
      trader_id = t.broker_id;
    } in
        record (set_side b t.side (emplace_order t.side o (get_side b t.side))) {
          order_id_map =
              insert t.order_id
                (record { side = t.side; price = pos_part t.price; order_id = t.order_id })
                b.order_id_map;
        })
    else b

unfoldable pub match_order :
    Taker → ℕ → LimitOrderBook → List Trade → Outcome (LimitOrderBook × List Trade)
unfolding match_levels rest_order
match_order t quantity b trade_events = do
  (far, remaining, d) ← match_levels t (get_side b (opposite t.side)) quantity (record {
    order_id_map = b.order_id_map;
    trade_events = trade_events;
    published = b.published;
  })
  let b' = record (set_side b (opposite t.side) far) {
    order_id_map = d.order_id_map;
    published = d.published;
  }
  ok (rest_order t remaining b', d.trade_events)

-- The precondition of `add_order`. Its arguments that need no sign test are natural numbers.
unfoldable pub add_order_contract :
    LimitOrderBook → (order_id : ℕ) (price : ℤ) (quantity : ℕ) → String → Outcome (Unit {0})
unfolding contains
add_order_contract b order_id price quantity broker_id = do
  require (not (contains order_id b.order_id_map)) contract
  require (eqb_ℤ price market_ask_order_price || ltb_ℤ (pos 0) price) contract
  require (ltb 0 quantity) contract
  require (ltb 0 (len broker_id)) contract

abbrev pub taker_of : (ℕ → Stamp) → LimitOrderBook → ℕ → ℤ → Side → String → Taker
taker_of stamp b order_id price side broker_id = record {
  order_id = order_id;
  price = price;
  side = side;
  broker_id = broker_id;
  ticker = b.ticker;
  stamp = stamp;
}

unfoldable pub add_order :
    (ℕ → Stamp)
    → LimitOrderBook
    → List Trade
    → (order_id : ℕ) (price : ℤ) (quantity : ℕ) → Side
    → String
    → Outcome (LimitOrderBook × List Trade)
unfolding match_order add_order_contract
add_order stamp b trade_events order_id price quantity side broker_id = do
  add_order_contract b order_id price quantity broker_id
  match_order (taker_of stamp b order_id price side broker_id) quantity b trade_events
