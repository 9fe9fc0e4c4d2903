-- ===== src/Lib.antt =====
-- A model of the exchange: what its services do with orders, in the order of the code, and
-- theorems about it.
--
-- The program is a set of services joined by messages. The gateway turns FIX messages into
-- containers and sends them to the order manager. The order manager reserves balances, gives each
-- order its id and forwards it to the matching engine. The matching engine keeps one limit order
-- book for each symbol, matches orders and answers with trades; it also hands trades and snapshots
-- to the market data processor. The order manager settles trades in the balances and reports to the
-- gateways.
--
-- Prelude       names and lemmas that all modules share: tests on numbers, integers, association
--               lists, and the type Outcome of results and failures. A failure stands for a
--               violated contract or assertion, an integer out of range, or an exception. Post.antt
--               has the rules by which a postcondition is proved along a chain of such calls.
-- Core          libs/core: Orders.antt has the enumerations of orders.h, Containers.antt the
--               messages of containers.h, ThreadSafeQueue.antt the queue of thread_safe_queue.h.
-- Engine        services/matching_engine/src. Order.antt: order.{h,cpp} and the trades of
--               libs/core/trade.h. Book.antt: LimitOrderBook with cancel_order, get_fill_cost and
--               the snapshots; Match.antt: add_order and match_order; Dispatch.antt:
--               process_container of matching_engine.cpp. Match/Spec.antt states price-time priority
--               as relations, with no account of the order map or of failures; Match/Refines,
--               Match/Resting and Match/Adds relate the code to it; Match/Total is about when it returns,
--               Match/Conservation and Match/Priority about quantities and prices. Invariant has the
--               order of the levels of a book, FillCost compares get_fill_cost with add_order, and
--               Dispatch/Books and Dispatch/Delivery are about the engine's messages.
-- Transport     libs/transport/messaging.h: Proto.antt has the generated messages, Messaging.antt
--               what is written, Decoding.antt what is read, RoundTrip.antt both together.
-- Manager       services/order_manager/src: Balances.antt is balance_checker.cpp; Orders.antt the
--               state of order_manager.h; Preprocess, Validate, Reports, Update and Run are the
--               stages of the two loops of order_manager.cpp. Balances/Credit, Settlement,
--               Reservation and Fills are about amounts and orders, Gatekeeping, Requests, Replies and Answers about
--               requests, Identity and Index about the ids of orders.
-- Gateway       services/gateway/src/gateway_application.cpp, and the conversions of orders.h.
--               Fix.antt has the conversions, Application.antt the handlers; Carried, Reading and
--               Answers are about inbound messages, Forwarding about the way of an order to the order
--               manager, Reports about the way of a report to the client.
-- Client        client_sdk: FixClient.antt has the requests and what a client is told; EndToEnd.antt
--               follows an order from the client to the order manager and a report back.
-- Simulation    simulation/traders/market_maker.h: MarketMaker.antt has its client and its quotes,
--               MarketData.antt its market data and Agent.antt its prices; Quotes.antt is about the
--               client.
-- MarketData    services/market_data_processor/src: Processor.antt has the rounds of the loop that
--               publishes snapshots and trades.
-- Ipc           libs/inter_process/mpsc_shared_memory_ring_buffer.h. Ring.antt has the buffer and the
--               calls as state machines with one shared access per step; System.antt runs any number
--               of producers and one consumer in any order; Invariant.antt has what holds between
--               two accesses, and Moves, Publishing, Taking, Safety and Runs that each access keeps
--               it; Order, Calls and Progress are about what callers see. Handle.antt has the handles
--               of the processes.
-- Tests         concrete runs.
--
-- State is passed explicitly. The sides of a book, a std::map of levels in the source, are lists of
-- levels with the best price first; a std::unordered_map is an association list. Quantities, prices
-- of resting orders and ids of the engine are natural numbers: the contracts of the code keep them
-- positive or not negative. The price of an incoming order is an integer, since INT_MIN marks a
-- market order to sell. Arithmetic on `int` and `int64_t` fails when its result leaves the range.
-- Every loop is structural recursion, on orders, levels or the number of rounds that the code's own
-- loop has, so no fuel is needed; the retries of a push to the shared buffer are steps of a run.
--
-- Accesses to the shared buffer take effect in one order. Its counters are 64 bits wide and their
-- differences are read as signed numbers, so its theorems are about runs of fewer than 2 ^ 62
-- accesses, and about capacities of at least 2.
--
-- QuickFIX, floating point numbers and the conversions of the standard library between texts and
-- numbers are the record Fix of the gateway. A field of a FIX message holds a number as decimal
-- text: who sets it writes the text, and the model's message has the number that is read from it.
-- A number that does not fit an integer, and a write past the end of an array, are failures.
--
-- Trade identifiers and times come from a generator and a clock: the k-th trade of a book takes the
-- k-th stamp of a sequence that is an argument. The code that protoc generates is the record Codec.
-- The matching engine's answer to a fill cost query is an argument of the order manager, and whether
-- a message of the matching engine can be sent is an argument of the engine.
-- Sockets, threads, the database server, logging and configuration are not modelled; the calls made
-- to them are values of the results. The lock of spinlock_mutex.h, the other traders of the
-- simulation, the database client, the backend service and the frontend are not modelled either.
pub mod Client
pub mod Core
pub mod Engine
pub mod Gateway
pub mod Ipc
pub mod Manager
pub mod MarketData
pub mod Prelude
pub mod Simulation
pub mod Tests
pub mod Transport
