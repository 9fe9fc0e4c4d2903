-- ===== src/Engine/Match/Spec.antt =====
-- Price-time priority as relations, with no account of the order map, the publisher or failures:
-- what a taker does to the orders of a level, and to the levels of the far side, best level first.
use elsa_fyp.Prelude.{
  ℕ, ◌-◌, ◌≤◌, ◌<◌, ◌≡◌, ◌⊎◌, true, false, List, [], ◌∷◌, ◌++◌, sum_by, ◌*◌, pos_part,
}
use elsa_fyp.Core.Orders.{Side, is_bid}
use elsa_fyp.Engine.Order.{Order, Trade}
use elsa_fyp.Engine.Book.{SideContainer}
use elsa_fyp.Engine.Match.{Taker, stops, is_market_price}

-- `trade` is the taker's trade of `quantity` units with the resting order `o`.
pub record Trades (t : Taker) (o : Order) (quantity : ℕ) (trade : Trade) : Type 0 where
  pub price : trade.price ≡ o.price
  pub quantity_eq : trade.quantity ≡ quantity
  pub taker_order_id : trade.taker_order_id ≡ t.order_id
  pub maker_order_id : trade.maker_order_id ≡ o.order_id
  pub taker_id : trade.taker_id ≡ t.broker_id
  pub maker_id : trade.maker_id ≡ o.trader_id
  pub ticker : trade.ticker ≡ t.ticker
  pub side : trade.is_taker_buyer ≡ is_bid t.side
  pub price_pos : 0 < trade.price
  pub quantity_pos : 0 < trade.quantity

-- Orders and quantity before, orders and quantity after, and the trades made, oldest order first.
pub data Fills (t : Taker) : List Order → ℕ → List Order → ℕ → List Trade → Type 0 where
  used_up : {r : ℕ} → Fills t [] r [] r []
  satisfied : {o : Order} {os : List Order} {r : ℕ} → r ≡ 0 → Fills t (o ∷ os) r (o ∷ os) r []
  whole :
      {o : Order} {os os' : List Order} {r r' : ℕ} {x : Trade} {xs : List Trade}
      → 0 < r
      → o.quantity ≤ r
      → Trades t o o.quantity x
      → Fills t os (r - o.quantity) os' r' xs
      → Fills t (o ∷ os) r os' r' (x ∷ xs)
  part :
      {o o' : Order} {os : List Order} {r r' : ℕ} {x : Trade}
      → 0 < r
      → r < o.quantity
      → Trades t o r x
      → o' ≡ record o { quantity = o.quantity - r }
      → r' ≡ 0
      → Fills t (o ∷ os) r (o' ∷ os) r' (x ∷ [])

pub data Sweeps (t : Taker) : SideContainer → ℕ → SideContainer → ℕ → List Trade → Type 0 where
  emptied : {r : ℕ} → Sweeps t [] r [] r []
  stopped :
      {p : ℕ} {os : List Order} {ls : SideContainer} {r : ℕ}
      → (r ≡ 0) ⊎ (stops t p ≡ true)
      → Sweeps t ((p, os) ∷ ls) r ((p, os) ∷ ls) r []
  through :
      {p : ℕ} {os : List Order} {ls ls' : SideContainer} {r r' r'' : ℕ} {xs ys : List Trade}
      → 0 < r
      → stops t p ≡ false
      → Fills t os r [] r' xs
      → Sweeps t ls r' ls' r'' ys
      → Sweeps t ((p, os) ∷ ls) r ls' r'' (xs ++ ys)
  within :
      {p : ℕ} {o : Order} {os os' : List Order} {ls : SideContainer} {r r' : ℕ} {xs : List Trade}
      → 0 < r
      → stops t p ≡ false
      → Fills t os r (o ∷ os') r' xs
      → Sweeps t ((p, os) ∷ ls) r ((p, o ∷ os') ∷ ls) r' xs

-- The order of prices: a bid is better when it is higher, an ask when it is lower.
abbrev pub Better : Side → ℕ → ℕ → Type 0
Better Side.bid p q = q < p
Better Side.ask p q = p < q

-- A resting order joins its side: last in the queue of its price, or alone at a price of its own
-- between the better and the worse ones. All other levels, and the orders before it, are as before.
pub data Joins (s : Side) (o : Order) : SideContainer → SideContainer → Type 0 where
  worst : Joins s o [] ((o.price, o ∷ []) ∷ [])
  queued :
      {p : ℕ} {os : List Order} {ls : SideContainer}
      → p ≡ o.price
      → Joins s o ((p, os) ∷ ls) ((p, os ++ o ∷ []) ∷ ls)
  ahead :
      {p : ℕ} {os : List Order} {ls : SideContainer}
      → Better s o.price p
      → Joins s o ((p, os) ∷ ls) ((o.price, o ∷ []) ∷ (p, os) ∷ ls)
  past :
      {p : ℕ} {os : List Order} {ls ls' : SideContainer}
      → Better s p o.price
      → Joins s o ls ls'
      → Joins s o ((p, os) ∷ ls) ((p, os) ∷ ls')

-- The order that a taker leaves.
abbrev pub resting : Taker → ℕ → Order
resting t remaining = record {
  order_id = t.order_id;
  price = pos_part t.price;
  quantity = remaining;
  side = t.side;
  trader_id = t.broker_id;
}

-- The near side before and after, when `remaining` units are left of the taker.
pub data Rests (t : Taker) (remaining : ℕ) (near : SideContainer) : SideContainer → Type 0 where
  used_up : remaining ≡ 0 → Rests t remaining near near
  dropped : is_market_price t.price ≡ true → Rests t remaining near near
  rested :
      {near' : SideContainer}
      → 0 < remaining
      → is_market_price t.price ≡ false
      → Joins t.side (resting t remaining) near near'
      → Rests t remaining near near'

-- Quantities: of resting orders, of levels, of trades; and what trades cost.
abbrev pub volume : List Order → ℕ
volume = sum_by (λ o. o.quantity)

abbrev pub depth : SideContainer → ℕ
depth = sum_by (λ l. volume l.1)

abbrev pub traded : List Trade → ℕ
traded = sum_by (λ x. x.quantity)

abbrev pub cost : List Trade → ℕ
cost = sum_by (λ x. x.price * x.quantity)
