-- ===== src/Tests/Manager.antt =====
-- Two brokers, ann and bob: an order of each, a trade between them, and requests of ann's.
use elsa_fyp.Prelude.{
  ℕ, ◌*◌, pos, negsuc, ◌-◌, ◌+ℤ◌, ◌-ℤ◌, ◌*ℤ◌, contains, insert, ◌≡◌, refl, String, some, none, [],
  ◌∷◌, arith, Outcome, ok, err, true, lookup, string_eq, int_eq,
}
use elsa_fyp.Core.Orders.{Side, OrderType, TimeInForce}
use elsa_fyp.Core.Containers.{
  Container, NewOrderSingle, CancelOrderRequest, FillCostQuery, TradeContainer,
}
use elsa_fyp.Manager.Orders.{OrderInfo, OrderInfoMap, default_order_info, left_find}
use elsa_fyp.Manager.Balances.{BalanceChecker}
use elsa_fyp.Manager.Balances.Credit.{amount}
use elsa_fyp.Manager.Preprocess.{
  Reply, transform_cl_ord_id, Registry, Preprocessed, Expected, preprocess_container,
}
use elsa_fyp.Manager.Validate.{validate_container}
use elsa_fyp.Manager.Index.{IsRegistry, preprocess_container-IsRegistry}
use elsa_fyp.Manager.Reports.{client_order_id}
use elsa_fyp.Manager.Update.{settle_trade, handle_trade, buyer_order_id}
use elsa_fyp.Manager.Settlement.{Settles, settle_trade-Settles}
use elsa_fyp.Manager.Reservation.{validate_container-settle_trade}
use elsa_fyp.Manager.Fills.{TradeBooked, handle_trade-TradeBooked}
use elsa_fyp.Manager.Answers.{Handled, handle_request-Answers}
use elsa_fyp.Manager.Identity.{client_order_id-transform, transform-injective}
use elsa_fyp.Manager.Run.{OrderManager, Environment, handle_request}

abbrev value_of : {A : Type 0} → A → Outcome A → A
value_of d (ok a) = a
value_of d (err e) = d

abbrev holdings : BalanceChecker
holdings = record {
  balance_map =
      ("ann", ("USD", pos 1000) ∷ ("AAPL", pos 50) ∷ [])
      ∷ ("bob", ("USD", pos 2000) ∷ ("AAPL", pos 10) ∷ [])
      ∷ [];
}

abbrev info : String → Side → ℕ → OrderInfo
info broker side price = record default_order_info {
  sender_comp_id = broker;
  symbol = "AAPL";
  side = side;
  price = some (pos price);
  leaves_qty = pos 8;
}

abbrev infos : OrderInfoMap
infos = (pos 0, info "ann" Side.bid 101) ∷ (pos 1, info "bob" Side.ask 100) ∷ []

abbrev trade : TradeContainer
trade = record {
  ticker = "AAPL";
  price = pos 100;
  quantity = pos 5;
  trade_id = "id";
  taker_id = "ann";
  maker_id = "bob";
  taker_order_id = pos 0;
  maker_order_id = pos 1;
  is_taker_buyer = true;
}

abbrev settled : BalanceChecker
unfolding settle_trade lookup contains insert ◌+ℤ◌ ◌-ℤ◌ ◌*ℤ◌
settled = value_of holdings (settle_trade infos holdings trade)

settled_run : settle_trade infos holdings trade ≡ ok settled
unfolding settle_trade lookup contains insert ◌+ℤ◌ ◌-ℤ◌ ◌*ℤ◌
settled_run = refl

settled_amounts :
    (amount settled "ann" "USD" ≡ pos 1005)
    × (amount settled "ann" "AAPL" ≡ pos 55)
    × (amount settled "bob" "USD" ≡ pos 2500)
unfolding settle_trade amount lookup contains insert ◌+ℤ◌ ◌-ℤ◌ ◌*ℤ◌
settled_amounts = (refl, refl, refl)

abbrev booked : OrderInfoMap × BalanceChecker
unfolding handle_trade lookup contains insert ◌+ℤ◌ ◌-ℤ◌ ◌*ℤ◌
booked = value_of (infos, holdings) (handle_trade infos holdings trade)

booked_run : handle_trade infos holdings trade ≡ ok booked
unfolding handle_trade lookup contains insert ◌+ℤ◌ ◌-ℤ◌ ◌*ℤ◌
booked_run = refl

abbrev manager : OrderManager
manager = record {
  registry = record { latest_assigned_order_id = pos 1; order_id_map = []; order_info_map = infos };
  users = ("ann", pos 7) ∷ [];
  active_symbols = "AAPL" ∷ [];
  server_id = pos 0;
  balances = holdings;
  forwarded = [];
  replies = [];
  calls = [];
}

abbrev env : Environment
env = record { server_name = "OM"; exec_id = λ k. "id"; engine = λ q. Reply.send_failed }

abbrev request : Container
request = Container.new_order_single (record {
  sender_comp_id = "ann";
  target_comp_id = "OM";
  cl_ord_id = pos 12;
  symbol = "AAPL";
  side = Side.bid;
  order_qty = pos 5;
  ord_type = OrderType.limit;
  price = some (pos 100);
  time_in_force = TimeInForce.day;
  order_id = none;
})

abbrev handled : OrderManager
unfolding handle_request lookup contains insert ◌+ℤ◌ ◌-ℤ◌ ◌*ℤ◌
handled = value_of manager (handle_request env manager (pos 3) request)

handled_run : handle_request env manager (pos 3) request ≡ ok handled
unfolding handle_request lookup contains insert ◌+ℤ◌ ◌-ℤ◌ ◌*ℤ◌
handled_run = refl

handled_amount : amount handled.balances "ann" "USD" ≡ pos 500
unfolding handle_request amount lookup contains insert ◌+ℤ◌ ◌-ℤ◌ ◌*ℤ◌
handled_amount = refl

settle_trade-Settles_example :
    (buyer : OrderInfo) × (lookup (buyer_order_id trade) infos ≡ some buyer)
    × Settles holdings trade buyer.price settled
unfolding settle_trade lookup contains insert ◌+ℤ◌ ◌-ℤ◌ ◌*ℤ◌
settle_trade-Settles_example = settle_trade-Settles infos holdings trade refl

-- A bid for 8 units at 101, of which 5 are traded at 100.
abbrev bid_of_eight : NewOrderSingle
bid_of_eight = record {
  sender_comp_id = "ann";
  target_comp_id = "OM";
  cl_ord_id = pos 12;
  symbol = "AAPL";
  side = Side.bid;
  order_qty = pos 8;
  ord_type = OrderType.limit;
  price = some (pos 101);
  time_in_force = TimeInForce.day;
  order_id = some (pos 0);
}

abbrev reserved : BalanceChecker
unfolding validate_container lookup contains insert ◌+ℤ◌ ◌-ℤ◌ ◌*ℤ◌
reserved =
    (value_of ("", holdings)
      (validate_container (Container.new_order_single bid_of_eight) ("AAPL" ∷ []) holdings none)).1

abbrev traded : BalanceChecker
unfolding settle_trade lookup contains insert ◌+ℤ◌ ◌-ℤ◌ ◌*ℤ◌
traded = value_of holdings (settle_trade infos reserved trade)

validate_container-settle_trade_example :
    amount traded "ann" "USD" +ℤ amount traded "bob" "USD" +ℤ pos (101 * (8 - 5))
    ≡ amount holdings "ann" "USD" +ℤ amount holdings "bob" "USD"
unfolding validate_container settle_trade lookup contains insert ◌+ℤ◌ ◌-ℤ◌ ◌*ℤ◌
validate_container-settle_trade_example =
    validate_container-settle_trade bid_of_eight ("AAPL" ∷ []) none infos holdings reserved trade
      (info "ann" Side.bid 101) 101 100 8 5 refl refl refl refl refl refl refl refl refl refl refl
      (omega arith) (omega arith) refl refl

handle_trade-TradeBooked_example : TradeBooked infos holdings trade booked.0 booked.1
unfolding handle_trade lookup contains insert ◌+ℤ◌ ◌-ℤ◌ ◌*ℤ◌
handle_trade-TradeBooked_example = handle_trade-TradeBooked infos holdings trade (ground arith) refl

handle_request-Answers_example : Handled env manager (pos 3) request handled
unfolding handle_request lookup contains insert ◌+ℤ◌ ◌-ℤ◌ ◌*ℤ◌
handle_request-Answers_example = handle_request-Answers env manager (pos 3) request refl

client_order_id-transform_example : client_order_id (pos 12007) ≡ pos 12
unfolding transform_cl_ord_id lookup contains insert ◌+ℤ◌ ◌-ℤ◌ ◌*ℤ◌
client_order_id-transform_example = client_order_id-transform 12 7 (omega arith) refl

abbrev ann_order_id : ℕ
ann_order_id = 12

abbrev ann_user_id : ℕ
ann_user_id = 7

transform-injective_example : (ann_order_id ≡ 12) × (ann_user_id ≡ 7)
unfolding transform_cl_ord_id lookup contains insert ◌+ℤ◌ ◌-ℤ◌ ◌*ℤ◌
transform-injective_example =
    transform-injective ann_order_id ann_user_id 12 7 (omega arith) (omega arith) refl refl

abbrev nobody : Registry
nobody = record { latest_assigned_order_id = negsuc 0; order_id_map = []; order_info_map = [] }

nobody-IsRegistry : IsRegistry nobody
unfolding lookup left_find
nobody-IsRegistry = record {
  unique = tt;
  assigned = tt;
  infos_assigned = λ id i e. cc;
  indexed = λ id t e. cc;
}

abbrev no_engine : FillCostQuery → Reply
no_engine q = Reply.send_failed

abbrev prepared : Preprocessed
unfolding preprocess_container lookup contains insert ◌+ℤ◌ ◌-ℤ◌ ◌*ℤ◌
prepared =
    value_of (record { registry = nobody; container = request; answer = Expected.expected none })
      (preprocess_container (("ann", pos 7) ∷ []) (pos 3) no_engine nobody request)

prepared_index : prepared.registry.order_id_map ≡ (pos 0, pos 12007) ∷ []
unfolding preprocess_container lookup contains insert ◌+ℤ◌ ◌-ℤ◌ ◌*ℤ◌
prepared_index = refl

preprocess_container-IsRegistry_example : IsRegistry prepared.registry
unfolding preprocess_container lookup contains insert ◌+ℤ◌ ◌-ℤ◌ ◌*ℤ◌
preprocess_container-IsRegistry_example =
    preprocess_container-IsRegistry (("ann", pos 7) ∷ []) (pos 3) no_engine nobody request
      nobody-IsRegistry refl

-- Order 1 is bob's.
abbrev foreign : CancelOrderRequest
foreign = record {
  sender_comp_id = "ann";
  target_comp_id = "OM";
  order_id = some (pos 1);
  orig_cl_ord_id = pos 99;
  cl_ord_id = pos 13;
  symbol = "AAPL";
  side = Side.ask;
  order_qty = pos 8;
}
