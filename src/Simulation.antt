-- ===== src/Simulation.antt =====
-- simulation/traders: the market maker.
pub mod MarketMaker
pub mod Quotes
pub mod MarketData
pub mod Agent
