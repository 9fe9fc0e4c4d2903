-- ===== src/Manager/Requests.antt =====
-- What reaches validation is a new order or a cancel request.
use elsa_fyp.Prelude.{
  ℤ, pos, ◌+ℤ◌, int32, inl, inr, Option-cases, some, Ensures, Ensures-step, lookup, string_eq,
}
use elsa_fyp.Core.Containers.{Container, FillCostQuery, CancelOrderRequest}
use elsa_fyp.Manager.Orders.{UserIdMap, right_find}
use elsa_fyp.Manager.Preprocess.{
  Preprocessed, preprocess_container, preprocess_cancel_request, Reply, Registry,
  transform_cl_ord_id, fetch_fill_cost,
}

-- A request, which is a new order or a cancel request.
abbrev pub IsRequest : Container → Type 0
IsRequest (Container.new_order_single n) = Unit {0}
IsRequest (Container.cancel_order_request c) = Unit {0}
IsRequest _ = ⊥

abbrev pub HasRequest : Preprocessed → Type 0
HasRequest p = IsRequest p.container

cancel_request-HasRequest :
    (users : UserIdMap) (gateway : ℤ) (engine : FillCostQuery → Reply) (g : Registry)
    (c : CancelOrderRequest)
    → Ensures HasRequest (preprocess_cancel_request users gateway engine g c)
unfolding preprocess_cancel_request
cancel_request-HasRequest users gateway engine g c =
    elim (Option-cases (lookup c.sender_comp_id users)) [
      | inl e ↦ rw (Ensures, e) tt
      | inr (user_id, e) ↦
          rw (Ensures, e)
            (Ensures-step HasRequest (transform_cl_ord_id c.orig_cl_ord_id user_id) _ λ t _. tt)
    ]

pub preprocess-IsRequest :
    (users : UserIdMap) (gateway : ℤ) (engine : FillCostQuery → Reply) (g : Registry)
    (k : Container)
    → Ensures HasRequest (preprocess_container users gateway engine g k)
unfolding preprocess_container preprocess_cancel_request
preprocess-IsRequest users gateway engine g (Container.new_order_single n) =
    Ensures-step HasRequest (int32 (g.latest_assigned_order_id +ℤ pos 1)) _ λ id _.
      elim (Option-cases (lookup n.sender_comp_id users)) [
        | inl e ↦ rw e tt
        | inr (user_id, e) ↦ rw e (
            Ensures-step HasRequest (transform_cl_ord_id n.cl_ord_id user_id) _ λ t _.
              elim (Option-cases (right_find t g.order_id_map)) [
                | inl e' ↦ rw e' (
                    Ensures-step HasRequest
                      (fetch_fill_cost engine (record n { order_id = some id })) _ λ a _. tt)
                | inr (old, e') ↦ rw e' tt
              ])
      ]
preprocess-IsRequest users gateway engine g (Container.cancel_order_request c) =
    cancel_request-HasRequest users gateway engine g c
preprocess-IsRequest users gateway engine g (Container.execution_report _) = tt
preprocess-IsRequest users gateway engine g (Container.trade _) = tt
preprocess-IsRequest users gateway engine g (Container.cancel_order_response _) = tt
preprocess-IsRequest users gateway engine g (Container.fill_cost_query _) = tt
preprocess-IsRequest users gateway engine g (Container.fill_cost_response _) = tt
