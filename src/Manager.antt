-- ===== src/Manager.antt =====
-- services/order_manager: balances, order identities, validation, reports and the dispatch loop.
pub mod Balances
pub mod Orders
pub mod Preprocess
pub mod Validate
pub mod Reports
pub mod Update
pub mod Run
pub mod Settlement
pub mod Reservation
pub mod Fills
pub mod Gatekeeping
pub mod Requests
pub mod Replies
pub mod Answers
pub mod Identity
pub mod Index
