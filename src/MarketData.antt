-- ===== src/MarketData.antt =====
-- services/market_data_processor: what is published of what the matching engine hands over.
pub mod Processor
