-- ===== src/Engine/Dispatch.antt =====
-- services/matching_engine/src/matching_engine.{h,cpp}: the books of an engine, `process_container`
-- and the publication of snapshots. Whether the k-th send succeeds is a parameter.
pub mod Delivery
pub mod Books
use elsa_fyp.Prelude.{
  ℕ, zero, suc, ℤ, pos, negsuc, pos_part, String, Option, none, some, List, [], ◌∷◌, ◌++◌, Map,
  lookup, insert, emplace, string_eq, Bool, true, false, if◌then◌else◌, Outcome, ok, err, contract,
  out_of_range, or_fault, ◌>>=◌,
}
use elsa_fyp.Core.Orders.{Side}
use elsa_fyp.Core.Containers.{
  Container, NewOrderSingle, CancelOrderRequest, FillCostQuery, TradeContainer,
}
use elsa_fyp.Engine.Order.{Trade, Stamp}
use elsa_fyp.Engine.Book.{
  LimitOrderBook, empty_book, cancel_order, order_id_exists, get_fill_cost, TopLevels,
  get_top_order_book_level_aggregate,
}
use elsa_fyp.Engine.Match.{add_order, market_bid_order_price, market_ask_order_price}

pub record MatchingEngine : Type 0 where
  pub limit_order_books : Map String LimitOrderBook
  pub trade_events : List Trade
  -- messages that were sent, with their connection, and the number of attempts
  pub sent : List (ℤ × Container)
  pub attempts : ℕ
  -- snapshots that were given to the publishers
  pub snapshots : List (String × TopLevels)

pub record Links : Type 0 where
  pub order_response_connection_id : ℤ
  pub incoming_request_connection_id : ℤ
  pub send_succeeds : ℕ → Bool
  -- the stamps of each book's trades
  pub stamps : String → ℕ → Stamp

-- The constructor: one book for each symbol.
unfoldable pub open_books : List String → Map String LimitOrderBook
unfolding emplace
open_books [] = []
open_books (s ∷ ss) = emplace s (empty_book s) (open_books ss)

abbrev pub new_engine : List String → MatchingEngine
new_engine symbols = record {
  limit_order_books = open_books symbols;
  trade_events = [];
  sent = [];
  attempts = 0;
  snapshots = [];
}

abbrev pub trade_container_of : Trade → TradeContainer
trade_container_of t = record {
  ticker = t.ticker;
  price = pos t.price;
  quantity = pos t.quantity;
  trade_id = t.trade_id;
  taker_id = t.taker_id;
  maker_id = t.maker_id;
  taker_order_id = pos t.taker_order_id;
  maker_order_id = pos t.maker_order_id;
  is_taker_buyer = t.is_taker_buyer;
}

-- An argument of a call whose contract wants it positive, or not negative.
abbrev pub positive : ℤ → Outcome ℕ
positive (pos zero) = err contract
positive (pos (suc n)) = ok (suc n)
positive (negsuc n) = err contract

abbrev pub not_negative : ℤ → Outcome ℕ
not_negative (pos n) = ok n
not_negative (negsuc n) = err contract

abbrev pub order_price : NewOrderSingle → ℤ
order_price n = elim n.price [
  | some p ↦ p
  | none ↦ elim n.side [ Side.bid ↦ market_bid_order_price | Side.ask ↦ market_ask_order_price ]
]

module _ (links : Links) where
  -- A send, and whether it succeeds.
  abbrev pub send : MatchingEngine → ℤ → Container → MatchingEngine × Bool
  send m connection c =
      if links.send_succeeds m.attempts
      then (record m { sent = m.sent ++ (connection, c) ∷ []; attempts = suc m.attempts }, true)
      else (record m { attempts = suc m.attempts }, false)

  -- The loop over the queue of trades, which stops at the first failure and keeps the rest.
  unfoldable pub send_trades : List Trade → MatchingEngine → MatchingEngine
  send_trades [] m = record m { trade_events = [] }
  send_trades (t ∷ ts) m =
      let c = Container.trade (trade_container_of t) in
      let after = send_trades ts (record m {
        sent = m.sent ++ (links.order_response_connection_id, c) ∷ [];
        attempts = suc m.attempts;
      }) in
      if links.send_succeeds m.attempts
      then after
      else record m { attempts = suc m.attempts; trade_events = t ∷ ts }

  unfoldable pub handle_new_order : MatchingEngine → NewOrderSingle → Outcome MatchingEngine
  unfolding send_trades
  handle_new_order m n = do
    id ← or_fault n.order_id contract
    book ← or_fault (lookup n.symbol m.limit_order_books) out_of_range
    order_id ← not_negative id
    quantity ← positive n.order_qty
    (book', events) ←
        add_order (links.stamps n.symbol) book m.trade_events order_id (order_price n) quantity
          n.side n.sender_comp_id
    ok (
        send_trades events
          (record m { limit_order_books = insert n.symbol book' m.limit_order_books }))

  abbrev pub cancel_response : CancelOrderRequest → ℤ → Bool → Container
  cancel_response c id success =
      Container.cancel_order_response
        (record { order_id = id; cl_ord_id = c.cl_ord_id; success = success })

  unfoldable pub handle_cancel_request :
      MatchingEngine → CancelOrderRequest → Outcome MatchingEngine
  unfolding order_id_exists
  handle_cancel_request m c = do
    id ← or_fault c.order_id contract
    book ← or_fault (lookup c.symbol m.limit_order_books) out_of_range
    if order_id_exists book id
        then (do
          book' ← cancel_order book (pos_part id)
          ok
              (send (record m { limit_order_books = insert c.symbol book' m.limit_order_books })
                links.order_response_connection_id (cancel_response c id true)).0)
        else ok (send m links.order_response_connection_id (cancel_response c id false)).0

  abbrev pub as_int : Option ℕ → Option ℤ
  as_int none = none
  as_int (some n) = some (pos n)

  unfoldable pub handle_fill_cost_query : MatchingEngine → FillCostQuery → Outcome MatchingEngine
  handle_fill_cost_query m q = do
    book ← or_fault (lookup q.symbol m.limit_order_books) out_of_range
    quantity ← positive q.quantity
    total_cost ← get_fill_cost book quantity q.side
    ok
        (send m links.incoming_request_connection_id
          (Container.fill_cost_response (record { total_cost = as_int total_cost }))).0

  -- Any other message is logged and dropped.
  unfoldable pub process_container : MatchingEngine → Container → Outcome MatchingEngine
  unfolding handle_new_order handle_cancel_request handle_fill_cost_query
  process_container m (Container.new_order_single n) = handle_new_order m n
  process_container m (Container.cancel_order_request c) = handle_cancel_request m c
  process_container m (Container.fill_cost_query q) = handle_fill_cost_query m q
  process_container m _ = ok m

-- One flush of `run`: a snapshot of each book goes to its publisher.
unfoldable pub take_snapshots : Map String LimitOrderBook → Outcome (List (String × TopLevels))
unfolding get_top_order_book_level_aggregate
take_snapshots [] = ok []
take_snapshots ((symbol, book) ∷ books) = do
  top ← get_top_order_book_level_aggregate book
  rest ← take_snapshots books
  ok ((symbol, top) ∷ rest)

unfoldable pub flush_snapshots : MatchingEngine → Outcome MatchingEngine
unfolding take_snapshots
flush_snapshots m = do
  taken ← take_snapshots m.limit_order_books
  ok (record m { snapshots = m.snapshots ++ taken })
