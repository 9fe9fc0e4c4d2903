-- ===== src/Manager/Replies.antt =====
-- The reply to a request and the record of it in the database.
use elsa_fyp.Prelude.{
  ℤ, ◌≡◌, refl, ap, ◌∙◌, true, false, Bool, inl, inr, String, Option, string_eq, Option-cases, none,
  some, [], ◌∷◌, ◌++◌, ok, Ensures, Ensures-bind, Ensures-or_fault, Ensures-mono, bad_optional,
  out_of_range, contract, ◌>>=◌, lookup, int_eq,
}
use elsa_fyp.Core.Orders.{ExecTypeOrOrderStatus, status_new, status_pending_cancel, status_rejected}
use elsa_fyp.Core.Containers.{Container, ExecutionReport}
use elsa_fyp.Manager.Orders.{OrderInfoMap}
use elsa_fyp.Manager.Reports.{
  generate_rejection_report_container, generate_success_report_container,
}
use elsa_fyp.Manager.Requests.{IsRequest}
use elsa_fyp.Manager.Run.{
  OrderManager, Environment, DatabaseCall, forward_and_reply, update_database, reply,
}

-- The call that records a request, with whether it was valid.
abbrev pub Records : Bool → Container → DatabaseCall → Type 0
Records valid (Container.new_order_single n) call =
    (id : ℤ) × (n.order_id ≡ some id) × (call ≡ DatabaseCall.insert_order id n valid)
Records valid (Container.cancel_order_request c) call =
    call ≡ DatabaseCall.insert_cancel_request c valid
Records valid _ call = ⊥

-- A report with both states goes to the sender of the request, under the request's own id.
pub record Reports (sender : String) (cl_ord_id : ℤ) (status : ExecTypeOrOrderStatus)
    (text : Option String) (r : ExecutionReport) : Type 0 where
  pub target : r.target_comp_id ≡ sender
  pub client_id : r.cl_order_id ≡ cl_ord_id
  pub exec_type : r.exec_type ≡ status
  pub ord_status : r.ord_status ≡ status
  pub text_eq : r.text ≡ text

abbrev pub Refuses : String → Container → ExecutionReport → Type 0
Refuses reason (Container.new_order_single n) r =
    Reports n.sender_comp_id n.cl_ord_id status_rejected (some reason) r
Refuses reason (Container.cancel_order_request c) r =
    Reports c.sender_comp_id c.cl_ord_id status_rejected (some reason) r
Refuses reason _ r = ⊥

-- The report on a valid request: a new order with all its quantity left, or a pending cancel.
abbrev pub Confirms : Container → ExecutionReport → Type 0
Confirms (Container.new_order_single n) r =
    Reports n.sender_comp_id n.cl_ord_id status_new none r
    × (n.order_id ≡ some r.order_id)
    × (r.leaves_qty ≡ n.order_qty)
Confirms (Container.cancel_order_request c) r =
    Reports c.sender_comp_id c.cl_ord_id status_pending_cancel none r
    × (c.order_id ≡ some r.order_id)
Confirms _ r = ⊥

-- One reply with the reason, one record of an invalid request, nothing forwarded or reserved.
pub record Rejects (m : OrderManager) (gateway : ℤ) (k : Container) (reason : String)
    (m' : OrderManager) : Type 0 where
  pub report : ExecutionReport
  pub call : DatabaseCall
  pub registry : m'.registry ≡ m.registry
  pub forwarded : m'.forwarded ≡ m.forwarded
  pub balances : m'.balances ≡ m.balances
  pub replies : m'.replies ≡ m.replies ++ (gateway, report) ∷ []
  pub calls : m'.calls ≡ m.calls ++ call ∷ []
  pub refused : Refuses reason k report
  pub recorded : Records false k call

told :
    {sender : String} {cl_ord_id : ℤ} {status : ExecTypeOrOrderStatus} {text : Option String}
    {r : ExecutionReport}
    → r.target_comp_id ≡ sender
    → r.cl_order_id ≡ cl_ord_id
    → r.exec_type ≡ status
    → r.ord_status ≡ status
    → r.text ≡ text
    → Reports sender cl_ord_id status text r
told a b c d e = record { target = a; client_id = b; exec_type = c; ord_status = d; text_eq = e }

report-Refuses :
    (server_name exec_id : String) (k : Container) (infos : OrderInfoMap) (reason : String)
    → Ensures
        (Refuses reason k)
        (generate_rejection_report_container server_name exec_id k infos reason)
unfolding generate_rejection_report_container
report-Refuses server_name exec_id (Container.new_order_single n) infos reason =
    Ensures-or_fault (Refuses reason (Container.new_order_single n)) n.order_id bad_optional _
      λ id _. told refl refl refl refl refl
report-Refuses server_name exec_id (Container.cancel_order_request c) infos reason =
    elim (Option-cases c.order_id) [
      | inl e ↦ rw e (told refl refl refl refl refl)
      | inr (id, e) ↦ rw e (
          Ensures-or_fault (Refuses reason (Container.cancel_order_request c)) (lookup id infos)
            out_of_range _ λ info _. told refl refl refl refl refl)
    ]
report-Refuses server_name exec_id (Container.execution_report _) infos reason = tt
report-Refuses server_name exec_id (Container.trade _) infos reason = tt
report-Refuses server_name exec_id (Container.cancel_order_response _) infos reason = tt
report-Refuses server_name exec_id (Container.fill_cost_query _) infos reason = tt
report-Refuses server_name exec_id (Container.fill_cost_response _) infos reason = tt

report-Confirms :
    (server_name exec_id : String) (k : Container) (infos : OrderInfoMap)
    → Ensures (Confirms k) (generate_success_report_container server_name exec_id k infos)
unfolding generate_success_report_container
report-Confirms server_name exec_id (Container.new_order_single n) infos =
    Ensures-or_fault (Confirms (Container.new_order_single n)) n.order_id bad_optional _
      λ id e. (told refl refl refl refl refl, e, refl)
report-Confirms server_name exec_id (Container.cancel_order_request c) infos =
    Ensures-or_fault (Confirms (Container.cancel_order_request c)) c.order_id bad_optional _ λ id e.
      Ensures-or_fault (Confirms (Container.cancel_order_request c)) (lookup id infos) out_of_range
        _ λ info _. (told refl refl refl refl refl, e)
report-Confirms server_name exec_id (Container.execution_report _) infos = tt
report-Confirms server_name exec_id (Container.trade _) infos = tt
report-Confirms server_name exec_id (Container.cancel_order_response _) infos = tt
report-Confirms server_name exec_id (Container.fill_cost_query _) infos = tt
report-Confirms server_name exec_id (Container.fill_cost_response _) infos = tt

-- The record of a request changes nothing but the calls.
pub record Recorded (m : OrderManager) (k : Container) (valid : Bool) (m' : OrderManager)
    : Type 0 where
  pub call : DatabaseCall
  pub valid_eq : Records valid k call
  pub only_calls : m' ≡ record m { calls = m.calls ++ call ∷ [] }

-- A reply alone.
abbrev Replied : OrderManager → ℤ → (ExecutionReport → Type 0) → OrderManager → Type 0
Replied m gateway Q m' = (report : ExecutionReport) × Q report × (m' ≡ reply m gateway report)

-- A request that goes on to the matching engine, whose reservation is made already.
pub record Forwards (m : OrderManager) (gateway : ℤ) (k : Container) (m' : OrderManager)
    : Type 0 where
  pub report : ExecutionReport
  pub call : DatabaseCall
  pub registry : m'.registry ≡ m.registry
  pub forwarded : m'.forwarded ≡ m.forwarded ++ k ∷ []
  pub balances : m'.balances ≡ m.balances
  pub replies : m'.replies ≡ m.replies ++ (gateway, report) ∷ []
  pub calls : m'.calls ≡ m.calls ++ call ∷ []
  pub confirmed : Confirms k report
  pub recorded : Records true k call

module _ (env : Environment) where
  update_database-Recorded :
      (m : OrderManager) (k : Container) (valid : Bool)
      → IsRequest k
      → Ensures (Recorded m k valid) (update_database env m k (some valid))
  unfolding update_database
  update_database-Recorded m (Container.new_order_single n) valid h =
      Ensures-or_fault (Recorded m (Container.new_order_single n) valid) n.order_id contract _
        λ id e. record {
          call = DatabaseCall.insert_order id n valid;
          valid_eq = (id, e, refl);
          only_calls = refl;
        }
  update_database-Recorded m (Container.cancel_order_request c) valid h = record {
    call = DatabaseCall.insert_cancel_request c valid;
    valid_eq = refl;
    only_calls = refl;
  }
  update_database-Recorded m (Container.execution_report _) valid h = absurd h
  update_database-Recorded m (Container.fill_cost_query _) valid h = absurd h
  update_database-Recorded m (Container.fill_cost_response _) valid h = absurd h
  update_database-Recorded m (Container.trade _) valid h = absurd h
  update_database-Recorded m (Container.cancel_order_response _) valid h = absurd h

  forward_and_reply-Refuses :
      (m : OrderManager) (k : Container) (gateway : ℤ) (reason : String)
      → Ensures
          (Replied m gateway (Refuses reason k))
          (forward_and_reply env m k gateway (some reason))
  unfolding forward_and_reply
  forward_and_reply-Refuses m k gateway reason =
      Ensures-bind (Replied m gateway (Refuses reason k)) (Refuses reason k) _
        (λ report. ok (reply m gateway report))
        (report-Refuses env.server_name _ k m.registry.order_info_map reason)
        λ report h. (report, h, refl)

  reply_success :
      (m : OrderManager) (k : Container) (gateway : ℤ)
      → Ensures
          (Replied (record m { forwarded = m.forwarded ++ k ∷ [] }) gateway (Confirms k))
          (forward_and_reply env m k gateway none)
  unfolding forward_and_reply
  reply_success m k gateway =
      Ensures-bind (Replied (record m { forwarded = m.forwarded ++ k ∷ [] }) gateway (Confirms k))
        (Confirms k) _
        (λ report. ok (reply (record m { forwarded = m.forwarded ++ k ∷ [] }) gateway report))
        (report-Confirms env.server_name _ k m.registry.order_info_map)
        λ report h. (report, h, refl)

  pub reject :
      (m : OrderManager) (k : Container) (gateway : ℤ) (reason : String)
      → IsRequest k
      → Ensures (Rejects m gateway k reason) (
          forward_and_reply env m k gateway (some reason) >>= λ r.
          update_database env r k (some false))
  reject m k gateway reason h =
      Ensures-bind (Rejects m gateway k reason) (Replied m gateway (Refuses reason k)) _ _
        (forward_and_reply-Refuses m k gateway reason)
        λ r (report, refused, replied).
          Ensures-mono (Rejects m gateway k reason) (Recorded r k false) _
            (update_database-Recorded r k false h)
            λ m' d. record {
              report = report;
              call = d.call;
              registry = ap (λ x. x.registry) d.only_calls ∙ ap (λ x. x.registry) replied;
              forwarded = ap (λ x. x.forwarded) d.only_calls ∙ ap (λ x. x.forwarded) replied;
              balances = ap (λ x. x.balances) d.only_calls ∙ ap (λ x. x.balances) replied;
              replies = ap (λ x. x.replies) d.only_calls ∙ ap (λ x. x.replies) replied;
              calls = ap (λ x. x.calls) d.only_calls ∙ ap (λ x. x.calls ++ d.call ∷ []) replied;
              refused = refused;
              recorded = d.valid_eq;
            }

  pub forward :
      (m : OrderManager) (k : Container) (gateway : ℤ)
      → IsRequest k
      → Ensures
          (Forwards m gateway k)
          (forward_and_reply env m k gateway none >>= λ r. update_database env r k (some true))
  forward m k gateway h =
      Ensures-bind (Forwards m gateway k)
        (Replied (record m { forwarded = m.forwarded ++ k ∷ [] }) gateway (Confirms k)) _ _
        (reply_success m k gateway)
        λ r (report, confirmed, replied).
          Ensures-mono (Forwards m gateway k) (Recorded r k true) _
            (update_database-Recorded r k true h)
            λ m' d. record {
              report = report;
              call = d.call;
              registry = ap (λ x. x.registry) d.only_calls ∙ ap (λ x. x.registry) replied;
              forwarded = ap (λ x. x.forwarded) d.only_calls ∙ ap (λ x. x.forwarded) replied;
              balances = ap (λ x. x.balances) d.only_calls ∙ ap (λ x. x.balances) replied;
              replies = ap (λ x. x.replies) d.only_calls ∙ ap (λ x. x.replies) replied;
              calls = ap (λ x. x.calls) d.only_calls ∙ ap (λ x. x.calls ++ d.call ∷ []) replied;
              confirmed = confirmed;
              recorded = d.valid_eq;
            }
