-- ===== src/Manager/Run.antt =====
-- The dispatch of services/order_manager/src/order_manager.cpp: `forward_and_reply`,
-- `update_database`, `return_execution_report` and the two halves of the loop of
-- `OrderManager::run`. What is sent and what the database is asked is logged in order; the program
-- only logs whether a send or a write succeeds.
use elsa_fyp.Prelude.{
  ℕ, suc, ℤ, String, Option, none, some, List, [], ◌∷◌, ◌++◌, Bool, false, eqb, string_eq, int_eq,
  if◌then◌else◌, lookup, emplace, Outcome, ok, err, contract, assertion, terminate, out_of_range,
  or_fault, ◌>>=◌,
}
use elsa_fyp.Core.Orders.{Side}
use elsa_fyp.Core.Containers.{
  Container, NewOrderSingle, CancelOrderRequest, ExecutionReport, TradeContainer,
  CancelOrderResponse, FillCostQuery,
}
use elsa_fyp.Manager.Balances.{BalanceChecker, get_balance, update_balance}
use elsa_fyp.Manager.Orders.{OrderInfo, UserIdMap, usd_symbol}
use elsa_fyp.Manager.Preprocess.{Expected, Reply, Registry, preprocess_container}
use elsa_fyp.Manager.Validate.{validate_container}
use elsa_fyp.Manager.Reports.{
  generate_rejection_report_container, generate_success_report_container,
  generate_matched_order_report_containers, generate_cancel_response_report_container,
}
use elsa_fyp.Manager.Update.{update_internal_data, buyer_id, seller_id}

-- The calls of the database.
pub data DatabaseCall : Type 0 where
  insert_order : ℤ → NewOrderSingle → Bool → DatabaseCall
  insert_cancel_request : CancelOrderRequest → Bool → DatabaseCall
  insert_trade : TradeContainer → DatabaseCall
  insert_cancel_response : CancelOrderResponse → DatabaseCall
  set_balance : (user_id server_id : ℤ) (symbol : String) (balance : ℤ) → DatabaseCall

pub record OrderManager : Type 0 where
  pub registry : Registry
  pub users : UserIdMap
  pub active_symbols : List String
  pub server_id : ℤ
  pub balances : BalanceChecker
  -- sent to the matching engine, replied to gateways, and asked of the database
  pub forwarded : List Container
  pub replies : List (ℤ × ExecutionReport)
  pub calls : List DatabaseCall

-- `SERVER_NAME`, the ids of reports in the order in which they are drawn, and the answers of the
-- matching engine to fill cost queries.
pub record Environment : Type 0 where
  pub server_name : String
  pub exec_id : ℕ → String
  pub engine : FillCostQuery → Reply

abbrev pub reply : OrderManager → ℤ → ExecutionReport → OrderManager
reply m gateway r = record m { replies = m.replies ++ (gateway, r) ∷ [] }

abbrev pub record_calls : OrderManager → List DatabaseCall → OrderManager
record_calls m cs = record m { calls = m.calls ++ cs }

abbrev pub reports : OrderManager → ℕ
reports m = reply_count m.replies
  where
    reply_count : List (ℤ × ExecutionReport) → ℕ
    reply_count [] = 0
    reply_count (r ∷ rs) = suc (reply_count rs)

module _ (env : Environment) where
  -- A container without a reason is valid.
  unfoldable pub forward_and_reply :
      OrderManager → Container → ℤ → Option String → Outcome OrderManager
  unfolding generate_success_report_container generate_rejection_report_container
  forward_and_reply m c gateway none = do
    report ←
        generate_success_report_container env.server_name (env.exec_id (reports m)) c
          m.registry.order_info_map
    ok (reply (record m { forwarded = m.forwarded ++ c ∷ [] }) gateway report)
  forward_and_reply m c gateway (some reason) = do
    report ←
        generate_rejection_report_container env.server_name (env.exec_id (reports m)) c
          m.registry.order_info_map reason
    ok (reply m gateway report)

  -- The balances of one party to a trade, as the database gets them.
  unfoldable pub balance_calls : OrderManager → String → String → Outcome (List DatabaseCall)
  unfolding get_balance
  balance_calls m user symbol = do
    user_id ← or_fault (lookup user m.users) out_of_range
    usd ← get_balance m.balances user usd_symbol
    amount ← get_balance m.balances user symbol
    ok (
        set_balance user_id m.server_id usd_symbol usd
        ∷ set_balance user_id m.server_id symbol amount
        ∷ [])

  -- The balance that the release of an order has changed.
  unfoldable pub released_call : OrderManager → OrderInfo → Side → Outcome DatabaseCall
  unfolding get_balance
  released_call m info Side.bid = do
    price ← or_fault info.price assertion
    user_id ← or_fault (lookup info.sender_comp_id m.users) out_of_range
    amount ← get_balance m.balances info.sender_comp_id usd_symbol
    ok (set_balance user_id m.server_id usd_symbol amount)
  released_call m info Side.ask = do
    price ← or_fault info.price assertion
    user_id ← or_fault (lookup info.sender_comp_id m.users) out_of_range
    amount ← get_balance m.balances info.sender_comp_id info.symbol
    ok (set_balance user_id m.server_id info.symbol amount)

  unfoldable pub update_database : OrderManager → Container → Option Bool → Outcome OrderManager
  unfolding balance_calls released_call
  update_database m (Container.new_order_single n) valid = do
    order_id ← or_fault n.order_id contract
    is_valid ← or_fault valid contract
    ok (record_calls m (insert_order order_id n is_valid ∷ []))
  update_database m (Container.cancel_order_request c) valid = do
    is_valid ← or_fault valid contract
    ok (record_calls m (insert_cancel_request c is_valid ∷ []))
  update_database m (Container.execution_report r) valid = ok m
  update_database m (Container.trade t) valid = do
    buyer ← balance_calls m (buyer_id t) t.ticker
    seller ← balance_calls m (seller_id t) t.ticker
    ok (record_calls m (insert_trade t ∷ buyer ++ seller))
  update_database m (Container.cancel_order_response r) valid =
      if r.success
      then (do
        info ← or_fault (lookup r.order_id m.registry.order_info_map) out_of_range
        call ← released_call m info info.side
        ok (record_calls m (insert_cancel_response r ∷ call ∷ [])))
      else ok (record_calls m (insert_cancel_response r ∷ []))
  update_database m (Container.fill_cost_query q) valid = err assertion
  update_database m (Container.fill_cost_response r) valid = err assertion

  unfoldable pub return_execution_report : OrderManager → Container → Outcome OrderManager
  unfolding generate_matched_order_report_containers generate_cancel_response_report_container
  return_execution_report m (Container.trade t) = do
    (taker, maker) ←
        generate_matched_order_report_containers env.server_name (env.exec_id (reports m))
          (env.exec_id (suc (reports m))) t m.registry.order_id_map m.registry.order_info_map
    taker_info ← or_fault (lookup t.taker_order_id m.registry.order_info_map) out_of_range
    maker_info ← or_fault (lookup t.maker_order_id m.registry.order_info_map) out_of_range
    ok (reply (reply m taker_info.arrival_gateway_id taker) maker_info.arrival_gateway_id maker)
  return_execution_report m (Container.cancel_order_response r) = do
    report ←
        generate_cancel_response_report_container env.server_name (env.exec_id (reports m)) r
          m.registry.order_id_map m.registry.order_info_map
    info ← or_fault (lookup r.order_id m.registry.order_info_map) out_of_range
    ok (reply m info.arrival_gateway_id report)
  return_execution_report m _ = err terminate

  -- A container that was preprocessed: validated, answered and persisted.
  unfoldable pub answer_container : OrderManager → Container → ℤ → Expected → Outcome OrderManager
  unfolding validate_container forward_and_reply update_database
  answer_container m c gateway (Expected.expected fill_cost) = do
    (verdict, balances) ← validate_container c m.active_symbols m.balances fill_cost
    let valid = eqb verdict "ok"
    replied ←
        forward_and_reply (record m { balances = balances }) c gateway
          (if valid then none else some verdict)
    update_database replied c (some valid)
  answer_container m c gateway (Expected.unexpected reason) = do
    replied ← forward_and_reply m c gateway (some reason)
    update_database replied c (some false)

  -- A message from a gateway.
  unfoldable pub handle_request : OrderManager → ℤ → Container → Outcome OrderManager
  unfolding preprocess_container answer_container
  handle_request m gateway c = do
    p ← preprocess_container m.users gateway env.engine m.registry c
    answer_container (record m { registry = p.registry }) p.container gateway p.answer

  -- A message from the matching engine.
  unfoldable pub handle_response : OrderManager → Container → Outcome OrderManager
  unfolding update_internal_data return_execution_report update_database
  handle_response m c = do
    (infos, balances) ← update_internal_data m.registry.order_info_map m.balances c
    let g : Registry = record (m.registry) { order_info_map = infos }
    reported ← return_execution_report (record m { registry = g; balances = balances }) c
    update_database reported c none

-- `init_balance_checker`, on the rows that the database returns: user id, name and balances.
unfoldable pub load_balances :
    OrderManager → (user_id : ℤ) (username : String) → List (String × ℤ) → Outcome OrderManager
unfolding update_balance emplace
load_balances m user_id username [] = ok m
load_balances m user_id username ((symbol, balance) ∷ rest) = do
  balances ← update_balance m.balances username symbol balance
  load_balances (record m { balances = balances; users = emplace username user_id m.users }) user_id
      username rest

unfoldable pub load_users :
    OrderManager → List (ℤ × String × List (String × ℤ)) → Outcome OrderManager
unfolding load_balances
load_users m [] = ok m
load_users m ((user_id, username, balances) ∷ rest) = do
  m' ← load_balances m user_id username balances
  load_users m' rest

-- No row at all fails an assertion.
unfoldable pub init_balance_checker :
    OrderManager → List (ℤ × String × List (String × ℤ)) → Outcome OrderManager
unfolding load_users
init_balance_checker m [] = err assertion
init_balance_checker m (row ∷ rows) = load_users m (row ∷ rows)
