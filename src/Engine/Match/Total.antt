-- ===== src/Engine/Match/Total.antt =====
-- When `add_order` returns: its contract holds, and every party fits the buffers of a trade.
use elsa_fyp.Prelude.{
  ℕ, ◌-◌, ◌≤◌, ◌<◌, ◌≡◌, true, false, leb, ◌==◌, ◌||◌, String, List, [], ◌∷◌, All, arith, length,
  erase, ok, ℤ, Succeeds, Succeeds-bind, Succeeds-if, Succeeds-ok, nat_eq,
}
use elsa_fyp.Core.Orders.{Side, opposite}
use elsa_fyp.Engine.Order.{
  Order, Trade, Stamp, fits_buffer, max_ticker_length, max_username_length, uuid_length,
  create_trade, fill,
}
use elsa_fyp.Engine.Book.{Level, SideContainer, LimitOrderBook, get_side, set_side}
use elsa_fyp.Engine.Match.{
  Taker, Desk, record_trade, match_level, match_levels, match_order, rest_order, add_order,
  add_order_contract, taker_of, stops,
}

-- The names that every trade of the taker carries fit their buffers.
pub record Servable (t : Taker) : Type 0 where
  pub ticker : fits_buffer t.ticker max_ticker_length ≡ true
  pub broker : fits_buffer t.broker_id max_username_length ≡ true
  pub ids : (k : ℕ) → fits_buffer (t.stamp k).trade_id uuid_length ≡ true

-- An order that a trade with the taker can be made of.
pub record Tradable (t : Taker) (o : Order) : Type 0 where
  pub price : 0 < o.price
  pub quantity : 0 < o.quantity
  pub fresh : (t.order_id == o.order_id) ≡ false
  pub trader : fits_buffer o.trader_id max_username_length ≡ true

record_trade-returns :
    (t : Taker) (o : Order) (q : ℕ) (d : Desk)
    → Servable t
    → Tradable t o
    → 0 < q
    → Succeeds (record_trade t o q d)
unfolding record_trade create_trade
record_trade-returns t o q d s h p =
    let id = s.ids (length d.published) in
    ground (arith, s.ticker, s.broker, id, h.price, h.quantity, h.fresh, h.trader)

fill-returns : (o : Order) (n : ℕ) → n ≤ o.quantity → Succeeds (fill o n)
unfolding fill
fill-returns o n h = ground arith

match_level-returns :
    (t : Taker) (os : List Order) (r : ℕ) (d : Desk)
    → Servable t
    → All (Tradable t) os
    → Succeeds (match_level t os r d)
unfolding match_level
match_level-returns t [] r d s h = tt
match_level-returns t (o ∷ os) r d s h =
    Succeeds-if (r == 0) _ _ (λ z. tt)
      λ nz.
        Succeeds-if (leb o.quantity r) _ _
          (λ le. Succeeds-bind _ _ (record_trade-returns t o o.quantity d s h.0 h.0.quantity) λ e q.
            match_level-returns t os (r - o.quantity)
              (record e { order_id_map = erase o.order_id e.order_id_map }) s h.1)
          λ gt. Succeeds-bind _ _ (fill-returns o r (ground arith)) λ o' q.
            Succeeds-bind _ (λ e. ok (o' ∷ os, 0, e))
              (record_trade-returns t o r d s h.0 (ground arith)) λ e q'. tt

-- Every order of a level can be traded with.
abbrev pub LevelTradable : Taker → Level → Type 0
LevelTradable t l = All (Tradable t) l.1

after_level-returns :
    (t : Taker) (p : ℕ) (ls : SideContainer) (os' : List Order) (r' : ℕ) (e : Desk)
    → Succeeds (match_levels t ls r' e)
    → Succeeds
        (elim os' [ [] ↦ match_levels t ls r' e | o ∷ rest ↦ ok ((p, o ∷ rest) ∷ ls, r', e) ])
after_level-returns t p ls [] r' e h = h
after_level-returns t p ls (o ∷ rest) r' e h = tt

match_levels-returns :
    (t : Taker) (ls : SideContainer) (r : ℕ) (d : Desk)
    → Servable t
    → All (LevelTradable t) ls
    → Succeeds (match_levels t ls r d)
unfolding match_levels
match_levels-returns t [] r d s h = tt
match_levels-returns t ((p, os) ∷ ls) r d s h =
    Succeeds-if (r == 0 || stops t p) _ _ (λ z. tt)
      λ nz.
        Succeeds-bind _ _ (match_level-returns t os r d s h.0) λ (os', r', e) q.
          after_level-returns t p ls os' r' e (match_levels-returns t ls r' e s h.1)

-- A call of `add_order` whose contract holds returns, if the texts of its trades fit their
-- buffers and every order on the opposite side has a positive price and quantity and another id.
pub add_order-returns :
    (stamp : ℕ → Stamp) (b : LimitOrderBook) (events : List Trade) (order_id : ℕ) (price : ℤ)
    (quantity : ℕ) (side : Side) (broker_id : String)
    → add_order_contract b order_id price quantity broker_id ≡ ok tt
    → Servable (taker_of stamp b order_id price side broker_id)
    → All
        (LevelTradable (taker_of stamp b order_id price side broker_id))
        (get_side b (opposite side))
    → (after : LimitOrderBook × List Trade) × (add_order stamp b events order_id price quantity side
          broker_id
        ≡ ok after)
unfolding add_order match_order
add_order-returns stamp b events order_id price quantity side broker_id pre s h =
    Succeeds-ok (add_order stamp b events order_id price quantity side broker_id) (
      Succeeds-bind (add_order_contract b order_id price quantity broker_id) _ (rw pre tt) λ _ q.
        Succeeds-bind _
          (λ (far, remaining, d). ok (
            rest_order t remaining (record (set_side b (opposite t.side) far) {
              order_id_map = d.order_id_map;
              published = d.published;
            }),
            d.trade_events,
          ))
          (match_levels-returns t (get_side b (opposite side)) quantity _ s h) λ _ q'. tt)
  where
    t : Taker
    t = taker_of stamp b order_id price side broker_id
