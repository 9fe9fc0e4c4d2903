-- ===== src/Engine.antt =====
-- services/matching_engine: the limit order book and the dispatch of messages to it.
pub mod Order
pub mod Book
pub mod Match
pub mod Invariant
pub mod FillCost
pub mod Dispatch
