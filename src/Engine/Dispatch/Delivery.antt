-- ===== src/Engine/Dispatch/Delivery.antt =====
-- Trades wait in their queue until they are sent.
use elsa_fyp.Prelude.{ℕ, pos, some, ℤ, ◌≡◌, List, ◌++◌, map, lookup, insert, string_eq, ok}
use elsa_fyp.Core.Containers.{Container, NewOrderSingle}
use elsa_fyp.Engine.Order.{Trade}
use elsa_fyp.Engine.Match.{add_order, taker_of}
use elsa_fyp.Engine.Book.{LimitOrderBook}
use elsa_fyp.Engine.Match.Adds.{Adds}
use elsa_fyp.Engine.Dispatch.{MatchingEngine, Links, trade_container_of, order_price}

module _ (links : Links) where
  -- The message of a trade, with its connection.
  abbrev pub trade_message : Trade → ℤ × Container
  trade_message t = (links.order_response_connection_id, Container.trade (trade_container_of t))

  -- The queue was sent in order up to a point, and the rest is still queued.
  pub record Delivers (m : MatchingEngine) (queue : List Trade) (m' : MatchingEngine) : Type 0 where
    pub delivered : List Trade
    pub split : queue ≡ delivered ++ m'.trade_events
    pub sent : m'.sent ≡ m.sent ++ map trade_message delivered

  -- A new order that was matched against the book of its symbol, which was written back, and whose
  -- trades joined the queue that was then sent.
  pub record Handles (m : MatchingEngine) (n : NewOrderSingle) (m' : MatchingEngine) : Type 0 where
    pub order_id : ℕ
    pub quantity : ℕ
    pub book : LimitOrderBook
    pub book' : LimitOrderBook
    pub queue : List Trade
    pub its_id : n.order_id ≡ some (pos order_id)
    pub its_quantity : n.order_qty ≡ pos quantity
    pub its_book : lookup n.symbol m.limit_order_books ≡ some book
    pub added :
        add_order
          (links.stamps n.symbol)
          book
          m.trade_events
          order_id
          (order_price n)
          quantity
          n.side
          n.sender_comp_id
        ≡ ok (book', queue)
    pub adds :
        Adds
          (taker_of (links.stamps n.symbol) book order_id (order_price n) n.side n.sender_comp_id)
          quantity
          book
          m.trade_events
          book'
          queue
    pub delivers : Delivers m queue m'
    pub books : m'.limit_order_books ≡ insert n.symbol book' m.limit_order_books
