-- ===== src/Tests/MarketData.antt =====
-- A queue that two threads use, and a processor of two symbols.
use elsa_fyp.Prelude.{ℕ, ◌≡◌, refl, List, [], ◌∷◌, ◌++◌, arith}
use elsa_fyp.Core.ThreadSafeQueue.{
  Operation, enqueues, dequeues, waits_and_dequeues, waits_and_dequeues_all, History, run, step,
  enqueue, dequeue, wait_and_dequeue, wait_and_dequeue_all, run-InOrder,
}
use elsa_fyp.MarketData.Processor.{
  MarketDataProcessor, Publication, orderbook_snapshot, public_trade, publish, round, rounds, total,
  waiting, rounds_complete,
}

abbrev calls : List (Operation ℕ)
calls =
    waits_and_dequeues
    ∷ enqueues 1
    ∷ enqueues 2
    ∷ enqueues 3
    ∷ dequeues
    ∷ waits_and_dequeues_all
    ∷ dequeues
    ∷ []

abbrev empty_history : History ℕ
empty_history = record { now = record { queue = [] }; put = []; taken = [] }

test_calls : (run calls empty_history).taken ≡ 1 ∷ 2 ∷ 3 ∷ []
unfolding run step enqueue dequeue wait_and_dequeue wait_and_dequeue_all
test_calls = refl

run-InOrder_example :
    (run calls empty_history).put
    ≡ (run calls empty_history).taken ++ (run calls empty_history).now.queue
run-InOrder_example = run-InOrder calls empty_history refl

abbrev processor : MarketDataProcessor ℕ ℕ
processor = record {
  orderbook_snapshot_ring_buffers = (1 ∷ 2 ∷ []) ∷ [] ∷ [];
  trade_ring_buffers = [] ∷ (7 ∷ []) ∷ [];
}

test_rounds :
    (rounds 2 processor).0 ≡ orderbook_snapshot 1 ∷ public_trade 7 ∷ orderbook_snapshot 2 ∷ []
unfolding rounds round publish
test_rounds = refl

abbrev weight : Publication ℕ ℕ → ℕ
weight (orderbook_snapshot s) = s
weight (public_trade t) = 0

rounds_complete_example : total weight (rounds 2 processor).0 ≡ waiting weight processor
rounds_complete_example =
    rounds_complete 2 processor
      (record {
        snapshots = (omega arith, (omega arith, tt));
        trades = (omega arith, (omega arith, tt));
      })
      weight
