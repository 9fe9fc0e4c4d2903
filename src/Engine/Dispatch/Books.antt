-- ===== src/Engine/Dispatch/Books.antt =====
-- Every message leaves every book valid.
use elsa_fyp.Prelude.{
  suc, ℤ, pos_part, ◌≡◌, refl, sym, subst, true, false, Bool-cases, inl, inr, String, some, List,
  [], ◌∷◌, ◌++◌, Map, lookup, insert, eqb, string_eq, ok, Ensures, Ensures-ok, Ensures-step,
  Ensures-or_fault, Ensures-if, contract, out_of_range,
}
use mathlib.Core.Option.{some-injective}
use elsa_fyp.Core.Containers.{Container, NewOrderSingle, CancelOrderRequest, FillCostQuery}
use elsa_fyp.Engine.Order.{Trade}
use elsa_fyp.Engine.Book.{LimitOrderBook, order_id_exists, cancel_order, get_fill_cost}
use elsa_fyp.Engine.Match.{add_order}
use elsa_fyp.Engine.Dispatch.Delivery.{trade_message}
use elsa_fyp.Engine.Invariant.{IsValid}
use elsa_fyp.Engine.Invariant.Add.{add_order-IsValid}
use elsa_fyp.Engine.Invariant.Cancel.{cancel_order-Cancelled}
use elsa_fyp.Engine.Dispatch.{
  MatchingEngine, Links, send_trades, handle_new_order, handle_cancel_request,
  handle_fill_cost_query, process_container, not_negative, positive, order_price, send,
  cancel_response, as_int,
}

-- Every book is valid.
abbrev pub BooksValid : Map String LimitOrderBook → Type 0
BooksValid [] = Unit {0}
BooksValid ((symbol, b) ∷ books) = IsValid b × BooksValid books

lookup-IsValid :
    (symbol : String) (books : Map String LimitOrderBook) {b : LimitOrderBook}
    → BooksValid books
    → lookup symbol books ≡ some b
    → IsValid b
unfolding lookup
lookup-IsValid symbol [] h e = cc
lookup-IsValid symbol ((s, b) ∷ books) h e = elim (Bool-cases (eqb s symbol)) [
  | inl same ↦ subst IsValid (some-injective _ _ (rw same at e)) h.0
  | inr other ↦ lookup-IsValid symbol books h.1 (rw other at e)
]

insert-BooksValid :
    (symbol : String) (b : LimitOrderBook) (books : Map String LimitOrderBook)
    → IsValid b
    → BooksValid books
    → BooksValid (insert symbol b books)
unfolding insert
insert-BooksValid symbol b [] v h = (v, tt)
insert-BooksValid symbol b ((s, c) ∷ books) v h = elim (Bool-cases (eqb s symbol)) [
  | inl same ↦ rw same (v, h.1)
  | inr other ↦ rw other (h.0, insert-BooksValid symbol b books v h.1)
]

module _ (links : Links) where
  send_trades-books :
      (queue : List Trade) (m : MatchingEngine)
      → (send_trades links queue m).limit_order_books ≡ m.limit_order_books
  unfolding send_trades
  send_trades-books [] m = refl
  send_trades-books (t ∷ ts) m = elim (Bool-cases (links.send_succeeds m.attempts)) [
    | inl sent ↦ rw sent (
        send_trades-books ts
          (record m { sent = m.sent ++ trade_message links t ∷ []; attempts = suc m.attempts }))
    | inr failed ↦ rw failed refl
  ]

  abbrev HasValidBooks : MatchingEngine → Type 0
  HasValidBooks m = BooksValid m.limit_order_books

  handle_new_order-BooksValid :
      (m : MatchingEngine) (n : NewOrderSingle)
      → HasValidBooks m
      → Ensures HasValidBooks (handle_new_order links m n)
  unfolding handle_new_order
  handle_new_order-BooksValid m n v = Ensures-or_fault HasValidBooks n.order_id contract _ λ id _.
      Ensures-or_fault HasValidBooks (lookup n.symbol m.limit_order_books) out_of_range _
        λ book found. Ensures-step HasValidBooks (not_negative id) _ λ order_id _.
          Ensures-step HasValidBooks (positive n.order_qty) _ λ quantity _.
            Ensures-step HasValidBooks
              (add_order (links.stamps n.symbol) book m.trade_events order_id (order_price n)
                quantity n.side n.sender_comp_id)
              (λ (book', events). ok (
                send_trades links events
                  (record m { limit_order_books = insert n.symbol book' m.limit_order_books })))
              λ (book', events) added.
                let kept =
                  add_order-IsValid (links.stamps n.symbol) book m.trade_events order_id
                    (order_price n) quantity n.side n.sender_comp_id
                    (lookup-IsValid n.symbol m.limit_order_books v found) added in
                subst BooksValid
                  (sym (
                    send_trades-books events
                      (record m { limit_order_books = insert n.symbol book' m.limit_order_books })))
                  (insert-BooksValid n.symbol book' m.limit_order_books kept v)

  send-books :
      (m : MatchingEngine) (connection : ℤ) (c : Container)
      → (send links m connection c).0.limit_order_books ≡ m.limit_order_books
  send-books m connection c = elim (Bool-cases (links.send_succeeds m.attempts)) [
    | inl sent ↦ rw sent refl
    | inr failed ↦ rw failed refl
  ]

  handle_cancel_request-BooksValid :
      (m : MatchingEngine) (c : CancelOrderRequest)
      → HasValidBooks m
      → Ensures HasValidBooks (handle_cancel_request links m c)
  unfolding handle_cancel_request
  handle_cancel_request-BooksValid m c v =
      Ensures-or_fault HasValidBooks c.order_id contract _ λ id _.
        Ensures-or_fault HasValidBooks (lookup c.symbol m.limit_order_books) out_of_range _
          λ book found.
            Ensures-if HasValidBooks (order_id_exists book id) _ _
              (λ _.
                Ensures-step HasValidBooks (cancel_order book (pos_part id))
                  (λ book'.
                    ok
                      (send links
                        (record m { limit_order_books = insert c.symbol book' m.limit_order_books })
                        links.order_response_connection_id (cancel_response links c id true)).0)
                  λ book' cancelled.
                    let kept =
                      cancel_order-Cancelled book (pos_part id)
                        (lookup-IsValid c.symbol m.limit_order_books v found) cancelled in
                    subst BooksValid
                      (sym (
                        send-books
                          (record m {
                            limit_order_books = insert c.symbol book' m.limit_order_books;
                          })
                          links.order_response_connection_id (cancel_response links c id true)))
                      (insert-BooksValid c.symbol book' m.limit_order_books kept.valid v))
              λ _.
                subst BooksValid
                  (sym (
                    send-books m links.order_response_connection_id
                      (cancel_response links c id false)))
                  v

  handle_fill_cost_query-BooksValid :
      (m : MatchingEngine) (q : FillCostQuery)
      → HasValidBooks m
      → Ensures HasValidBooks (handle_fill_cost_query links m q)
  unfolding handle_fill_cost_query
  handle_fill_cost_query-BooksValid m q v =
      Ensures-or_fault HasValidBooks (lookup q.symbol m.limit_order_books) out_of_range _ λ book _.
        Ensures-step HasValidBooks (positive q.quantity) _ λ quantity _.
          Ensures-step HasValidBooks (get_fill_cost book quantity q.side)
            (λ cost.
              ok
                (send links m links.incoming_request_connection_id
                  (Container.fill_cost_response (record { total_cost = as_int links cost }))).0)
            λ cost _. subst BooksValid (sym (send-books m links.incoming_request_connection_id _)) v

  process_container-Ensures :
      (m : MatchingEngine) (k : Container)
      → HasValidBooks m
      → Ensures HasValidBooks (process_container links m k)
  unfolding process_container
  process_container-Ensures m (Container.new_order_single n) v = handle_new_order-BooksValid m n v
  process_container-Ensures m (Container.cancel_order_request c) v =
      handle_cancel_request-BooksValid m c v
  process_container-Ensures m (Container.fill_cost_query q) v =
      handle_fill_cost_query-BooksValid m q v
  process_container-Ensures m (Container.execution_report _) v = v
  process_container-Ensures m (Container.trade _) v = v
  process_container-Ensures m (Container.cancel_order_response _) v = v
  process_container-Ensures m (Container.fill_cost_response _) v = v

-- Whatever message the engine handles without a failure, books that are all valid stay valid.
pub process_container-BooksValid :
    (links : Links) (m : MatchingEngine) (k : Container) {m' : MatchingEngine}
    → BooksValid m.limit_order_books
    → process_container links m k ≡ ok m'
    → BooksValid m'.limit_order_books
process_container-BooksValid links m k v e =
    Ensures-ok (HasValidBooks links) _ (process_container-Ensures links m k v) e
