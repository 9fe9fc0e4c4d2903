-- ===== src/Tests/Dispatch.antt =====
-- An engine with one book, an order that crosses it, and a link that fails on the second message.
use elsa_fyp.Prelude.{
  arith, ℕ, ltb, pos, ◌≡◌, refl, some, [], ◌∷◌, Outcome, ok, err, lookup, insert, string_eq,
  contains,
}
use elsa_fyp.Core.Orders.{Side, OrderType, TimeInForce}
use elsa_fyp.Core.Containers.{Container, NewOrderSingle}
use elsa_fyp.Engine.Order.{Order}
use elsa_fyp.Engine.Book.{empty_book}
use elsa_fyp.Engine.Match.{add_order}
use elsa_fyp.Engine.Dispatch.{MatchingEngine, Links, handle_new_order, process_container}
use elsa_fyp.Engine.Dispatch.Books.{BooksValid, process_container-BooksValid}

abbrev value_of : {A : Type 0} → A → Outcome A → A
value_of d (ok a) = a
value_of d (err e) = d

abbrev ask : ℕ → ℕ → Order
ask id price = record {
  order_id = id;
  price = price;
  quantity = 2;
  side = Side.ask;
  trader_id = "ann";
}

abbrev engine : MatchingEngine
engine = record {
  limit_order_books =
      (
        "AAPL",
        record (empty_book "AAPL") {
          asks = (101, ask 1 101 ∷ []) ∷ (102, ask 2 102 ∷ []) ∷ [];
          order_id_map =
              (1, record { side = Side.ask; price = 101; order_id = 1 })
              ∷ (2, record { side = Side.ask; price = 102; order_id = 2 })
              ∷ [];
        },
      )
      ∷ [];
  trade_events = [];
  sent = [];
  attempts = 0;
  snapshots = [];
}

abbrev links : Links
links = record {
  order_response_connection_id = pos 1;
  incoming_request_connection_id = pos 2;
  send_succeeds = λ k. ltb k 1;
  stamps = λ s k. record { trade_id = "id"; now_ts_ms = k };
}

abbrev bid : NewOrderSingle
bid = record {
  sender_comp_id = "bob";
  target_comp_id = "ME";
  cl_ord_id = pos 1;
  symbol = "AAPL";
  side = Side.bid;
  order_qty = pos 5;
  ord_type = OrderType.limit;
  price = some (pos 102);
  time_in_force = TimeInForce.day;
  order_id = some (pos 7);
}

abbrev served : MatchingEngine
unfolding handle_new_order lookup insert contains add_order
served = value_of engine (handle_new_order links engine bid)

served_run : handle_new_order links engine bid ≡ ok served
unfolding handle_new_order lookup insert contains add_order
served_run = refl

engine-BooksValid : BooksValid engine.limit_order_books
engine-BooksValid = ground arith

process_container-BooksValid_example : BooksValid served.limit_order_books
unfolding process_container handle_new_order lookup insert contains add_order
process_container-BooksValid_example =
    process_container-BooksValid links engine (Container.new_order_single bid) engine-BooksValid
      refl
