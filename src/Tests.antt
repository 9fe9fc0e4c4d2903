-- ===== src/Tests.antt =====
-- Runs of the model on small inputs, and the theorems at inputs that meet their hypotheses.
mod Engine
pub mod Wire
mod Dispatch
mod Manager
mod Ipc
pub mod Gateway
mod Client
mod MarketData
