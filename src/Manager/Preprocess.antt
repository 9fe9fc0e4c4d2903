-- ===== src/Manager/Preprocess.antt =====
-- `preprocess_container` of services/order_manager/src/order_manager.cpp. The exchange with the
-- matching engine is a parameter: what the client answers to a fill cost query.
use elsa_fyp.Prelude.{
  ℤ, pos, ◌+ℤ◌, ◌*ℤ◌, String, Option, none, some, lookup, emplace, int_eq, string_eq, Outcome, ok,
  err, assertion, terminate, int32, ◌>>=◌,
}
use elsa_fyp.Core.Orders.{Side, OrderType, max_user_count}
use elsa_fyp.Core.Containers.{Container, NewOrderSingle, CancelOrderRequest, FillCostQuery}
use elsa_fyp.Manager.Orders.{
  OrderInfo, OrderInfoMap, OrderIdMap, UserIdMap, right_find, bimap_insert,
}

-- `std::expected<std::optional<int>, std::string>`: a fill cost, or the reason of a rejection.
pub data Expected : Type 0 where
  expected : Option ℤ → Expected
  unexpected : String → Expected

-- The send of a query fails, or a message comes back.
pub data Reply : Type 0 where
  send_failed : Reply
  replied : Container → Reply

-- The state that the function writes; the last id assigned is a static variable of it.
pub record Registry : Type 0 where
  pub latest_assigned_order_id : ℤ
  pub order_id_map : OrderIdMap
  pub order_info_map : OrderInfoMap

-- The client order id together with the user: `cl_ord_id * max_user_count + user_id`, in `int`.
unfoldable pub transform_cl_ord_id : ℤ → ℤ → Outcome ℤ
transform_cl_ord_id cl_ord_id user_id = do
  scaled ← int32 (cl_ord_id *ℤ pos max_user_count)
  int32 (scaled +ℤ user_id)

abbrev pub order_info_of : NewOrderSingle → ℤ → OrderInfo
order_info_of n arrival_gateway_id = record {
  sender_comp_id = n.sender_comp_id;
  symbol = n.symbol;
  side = n.side;
  price = n.price;
  time_in_force = n.time_in_force;
  leaves_qty = n.order_qty;
  cum_qty = pos 0;
  avg_px = pos 0;
  arrival_gateway_id = arrival_gateway_id;
}

abbrev pub fill_cost_query_of : NewOrderSingle → FillCostQuery
fill_cost_query_of n = record { symbol = n.symbol; quantity = n.order_qty; side = Side.ask }

abbrev pub read_reply : Reply → Outcome Expected
read_reply Reply.send_failed =
    ok (Expected.unexpected "Order request dropped due to internal reasons")
read_reply (Reply.replied (Container.fill_cost_response r)) = ok (Expected.expected r.total_cost)
read_reply (Reply.replied _) = err assertion

-- A market bid needs its fill cost before it can be validated.
unfoldable pub fetch_fill_cost : (FillCostQuery → Reply) → NewOrderSingle → Outcome Expected
fetch_fill_cost engine n = by_kind n.ord_type n.side
  where
    by_kind : OrderType → Side → Outcome Expected
    by_kind OrderType.market Side.bid = read_reply (engine (fill_cost_query_of n))
    by_kind OrderType.market Side.ask = ok (Expected.expected none)
    by_kind OrderType.limit s = ok (Expected.expected none)

pub record Preprocessed : Type 0 where
  pub registry : Registry
  pub container : Container
  pub answer : Expected

module _ (users : UserIdMap) (arrival_gateway_id : ℤ) (engine : FillCostQuery → Reply) where
  unfoldable pub preprocess_new_order : Registry → NewOrderSingle → Outcome Preprocessed
  unfolding transform_cl_ord_id fetch_fill_cost right_find bimap_insert
  preprocess_new_order g n = do
    id ← int32 (g.latest_assigned_order_id +ℤ pos 1)
    let n' : NewOrderSingle = record n { order_id = some id }
    let g' : Registry = record g { latest_assigned_order_id = id }
    elim (lookup n.sender_comp_id users) [
      | none ↦ ok (record {
        registry = g';
        container = Container.new_order_single n';
        answer = Expected.unexpected "Order request contains unknown username";
      })
      | some user_id ↦ (do
        transformed ← transform_cl_ord_id n.cl_ord_id user_id
        elim (right_find transformed g.order_id_map) [
          | some _ ↦ ok (record {
            registry = g';
            container = Container.new_order_single n';
            answer = Expected.unexpected "Client order id has already been used";
          })
          | none ↦ (do
            let g'' : Registry = record g' {
              order_id_map = bimap_insert id transformed g.order_id_map;
              order_info_map = emplace id (order_info_of n' arrival_gateway_id) g.order_info_map;
            }
            answer ← fetch_fill_cost engine n'
            ok (record {
              registry = g'';
              container = Container.new_order_single n';
              answer = answer;
            }))
        ])
    ]

  -- The order id of the original order replaces one that the client gave, if it is found.
  unfoldable pub preprocess_cancel_request : Registry → CancelOrderRequest → Outcome Preprocessed
  unfolding transform_cl_ord_id right_find
  preprocess_cancel_request g c = elim (lookup c.sender_comp_id users) [
    | none ↦ ok (record {
      registry = g;
      container = Container.cancel_order_request c;
      answer = Expected.unexpected "Cancel request contains unknown username";
    })
    | some user_id ↦ (do
      transformed ← transform_cl_ord_id c.orig_cl_ord_id user_id
      let c' : CancelOrderRequest = elim (right_find transformed g.order_id_map) [
        | none ↦ c
        | some id ↦ record c { order_id = some id }
      ]
      ok (record {
        registry = g;
        container = Container.cancel_order_request c';
        answer = Expected.expected none;
      }))
  ]

  unfoldable pub preprocess_container : Registry → Container → Outcome Preprocessed
  unfolding preprocess_new_order preprocess_cancel_request
  preprocess_container g (Container.new_order_single n) = preprocess_new_order g n
  preprocess_container g (Container.cancel_order_request c) = preprocess_cancel_request g c
  preprocess_container g _ = err terminate
