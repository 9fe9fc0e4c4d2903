-- ===== src/Gateway.antt =====
-- services/gateway and the conversions of libs/core/orders.h: FIX messages to containers and back.
pub mod Fix
pub mod Application
pub mod Carried
pub mod Reading
pub mod Answers
pub mod Forwarding
pub mod Reports
