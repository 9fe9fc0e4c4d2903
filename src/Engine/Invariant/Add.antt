-- ===== src/Engine/Invariant/Add.antt =====
-- `add_order` keeps the invariant of the book.
use elsa_fyp.Prelude.{
  ℕ, ◌<◌, ◌≡◌, refl, ◌⊎◌, inl, inr, true, not, ◌&&◌, ◌||◌, List, [], ◌∷◌, arith, if_cases, and_left,
  and_right, insert, ok, Ensures, Ensures-ok, Ensures-bind, Ensures-step, nat_eq, ltb, ℤ, pos,
  pos_part, eqb_ℤ, ltb_ℤ, String, Map,
}
use elsa_fyp.Core.Orders.{Side, opposite}
use elsa_fyp.Engine.Order.{Order, Trade, Stamp}
use elsa_fyp.Engine.Book.{
  SideContainer, Iterator, LimitOrderBook, get_side, set_side, emplace_order,
}
use elsa_fyp.Engine.Match.{
  Taker, Desk, is_market_price, rest_order, match_order, add_order, add_order_contract, taker_of,
  market_ask_order_price,
}
use elsa_fyp.Engine.Match.Spec.{Sweeps}
use elsa_fyp.Engine.Match.Refines.{LevelsSwept, match_levels-Sweeps}
use elsa_fyp.Engine.Invariant.{Behind, IsSide, IsValid}
use elsa_fyp.Engine.Invariant.Far.{Sweeps-IsSide, Sweeps-Behind, Sweeps-ends, Blocked}
use elsa_fyp.Engine.Invariant.Near.{
  Apart, Apart-none, Apart-of-Behind, Behind-of-Apart, emplace-Apart, emplace-IsSide, near-IsSide,
  far-IsSide, sides-Apart,
}

-- The price of a call of `add_order`.
abbrev IsPrice : ℤ → Type 0
IsPrice p = (eqb_ℤ p market_ask_order_price || ltb_ℤ (pos 0) p) ≡ true

price_pos : (p : ℤ) → IsPrice p → not (is_market_price p) ≡ true → 0 < pos_part p
price_pos p ip h = ground arith

-- The near side is kept apart from the far side while that is swept.
swept-Apart :
    {t : Taker} {far far' : SideContainer} {r r' : ℕ} {xs : List Trade} (s : Side)
    (near : SideContainer)
    → Sweeps t far r far' r' xs
    → IsSide (opposite s) far
    → Apart s near far
    → Apart s near far'
swept-Apart {far' = far'} s [] sw h a = Apart-none s far'
swept-Apart {far = far} {far' = far'} s ((p, os) ∷ near) sw h a =
    Apart-of-Behind s p os near far'
      (Sweeps-Behind (opposite s) p sw h.ordered (Behind-of-Apart s p os near far a))

-- A far side that does not admit the taker's price lies behind it.
Blocked-Behind :
    (t : Taker) (far : SideContainer)
    → IsPrice t.price
    → Blocked t far
    → not (is_market_price t.price) ≡ true
    → Behind (opposite t.side) (pos_part t.price) far
Blocked-Behind t [] ip h m = tt
Blocked-Behind t ((p, os) ∷ far) ip h m = ground arith

-- A book with both sides of `s` written anew.
near_written :
    (s : Side) (b : LimitOrderBook) (near : SideContainer) (m : Map ℕ Iterator)
    → IsValid b
    → IsSide s near
    → Apart s near (get_side b (opposite s))
    → IsValid (record (set_side b s near) { order_id_map = m })
near_written Side.bid b near m v h a = record { bids = h; asks = v.asks; uncrossed = a }
near_written Side.ask b near m v h a = record { bids = v.bids; asks = h; uncrossed = a }

far_written :
    (s : Side) (b : LimitOrderBook) (far : SideContainer) (m : Map ℕ Iterator) (ts : List Trade)
    → IsValid b
    → IsSide (opposite s) far
    → Apart s (get_side b s) far
    → IsValid (record (set_side b (opposite s) far) { order_id_map = m; published = ts })
far_written Side.bid b far m ts v h a = record { bids = v.bids; asks = h; uncrossed = a }
far_written Side.ask b far m ts v h a = record { bids = h; asks = v.asks; uncrossed = a }

far_read :
    (s : Side) (b : LimitOrderBook) (far : SideContainer) (m : Map ℕ Iterator) (ts : List Trade)
    → get_side
        (record (set_side b (opposite s) far) { order_id_map = m; published = ts })
        (opposite s)
      ≡ far
far_read Side.bid b far m ts = refl
far_read Side.ask b far m ts = refl

rest_order-IsValid :
    (t : Taker) (remaining : ℕ) (b : LimitOrderBook)
    → IsPrice t.price
    → (remaining ≡ 0) ⊎ Blocked t (get_side b (opposite t.side))
    → IsValid b
    → IsValid (rest_order t remaining b)
unfolding rest_order
rest_order-IsValid t remaining b ip ends v =
    if_cases IsValid (ltb 0 remaining && not (is_market_price t.price)) _ _ rests (λ _. v)
  where
    o : Order
    o = record {
      order_id = t.order_id;
      price = pos_part t.price;
      quantity = remaining;
      side = t.side;
      trader_id = t.broker_id;
    }

    rests :
        (ltb 0 remaining && not (is_market_price t.price)) ≡ true
        → IsValid (record (set_side b t.side (emplace_order t.side o (get_side b t.side))) {
          order_id_map =
              insert t.order_id
                (record { side = t.side; price = pos_part t.price; order_id = t.order_id })
                b.order_id_map;
        })
    rests h =
        let some_left = and_left (ltb 0 remaining) (not (is_market_price t.price)) h in
        let limit = and_right (ltb 0 remaining) (not (is_market_price t.price)) h in
        let blocked : Blocked t (get_side b (opposite t.side)) = elim ends [
          | inl z ↦ absurd (ground (arith, z, some_left))
          | inr k ↦ k
        ] in
        near_written t.side b _ _ v
          (emplace-IsSide t.side o _ (price_pos t.price ip limit)
            (record { price = refl; side = refl; quantity = ground arith }) (near-IsSide t.side v))
          (emplace-Apart t.side o _ _ (Blocked-Behind t _ ip blocked limit) (sides-Apart t.side v))

abbrev BookValid : LimitOrderBook × List Trade → Type 0
BookValid x = IsValid x.0

match_order-IsValid :
    (t : Taker) (quantity : ℕ) (b : LimitOrderBook) (events : List Trade)
    → IsPrice t.price
    → IsValid b
    → Ensures BookValid (match_order t quantity b events)
unfolding match_order
match_order-IsValid t quantity b events ip v =
    Ensures-bind BookValid (LevelsSwept t (get_side b (opposite t.side)) quantity desk) _
      (λ (far, remaining, d). ok (
        rest_order t remaining (record (set_side b (opposite t.side) far) {
          order_id_map = d.order_id_map;
          published = d.published;
        }),
        d.trade_events,
      ))
      (match_levels-Sweeps t (get_side b (opposite t.side)) quantity desk)
      λ (far, remaining, d) (xs, sw, lg).
        rest_order-IsValid t remaining _ ip
          (rw (far_read t.side b far d.order_id_map d.published) (Sweeps-ends sw))
          (far_written t.side b far _ _ v (Sweeps-IsSide (opposite t.side) sw (far-IsSide t.side v))
            (swept-Apart t.side (get_side b t.side) sw (far-IsSide t.side v)
              (sides-Apart t.side v)))
  where
    desk : Desk
    desk = record { order_id_map = b.order_id_map; trade_events = events; published = b.published }

contract-IsPrice :
    (b : LimitOrderBook) (order_id : ℕ) (price : ℤ) (quantity : ℕ) (broker_id : String)
    → add_order_contract b order_id price quantity broker_id ≡ ok tt
    → IsPrice price
unfolding add_order_contract
contract-IsPrice b order_id price quantity broker_id e = ground arith

pub add_order-BookValid :
    (stamp : ℕ → Stamp) (b : LimitOrderBook) (events : List Trade) (order_id : ℕ) (price : ℤ)
    (quantity : ℕ) (side : Side) (broker_id : String)
    → IsValid b
    → Ensures BookValid (add_order stamp b events order_id price quantity side broker_id)
unfolding add_order
add_order-BookValid stamp b events order_id price quantity side broker_id v =
    Ensures-step BookValid (add_order_contract b order_id price quantity broker_id)
      (λ _. match_order (taker_of stamp b order_id price side broker_id) quantity b events)
      λ _ pre.
        match_order-IsValid (taker_of stamp b order_id price side broker_id) quantity b events
          (contract-IsPrice b order_id price quantity broker_id pre) v

-- A call of `add_order` that returns keeps a valid book valid: levels in order of price, none empty,
-- orders at their own level with a positive quantity, and no bid at or above an ask.
pub add_order-IsValid :
    (stamp : ℕ → Stamp) (b : LimitOrderBook) (events : List Trade) (order_id : ℕ) (price : ℤ)
    (quantity : ℕ) (side : Side) (broker_id : String) {b' : LimitOrderBook} {events' : List Trade}
    → IsValid b
    → add_order stamp b events order_id price quantity side broker_id ≡ ok (b', events')
    → IsValid b'
add_order-IsValid stamp b events order_id price quantity side broker_id v e =
    Ensures-ok BookValid _
      (add_order-BookValid stamp b events order_id price quantity side broker_id v) e
