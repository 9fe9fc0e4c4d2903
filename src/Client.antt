-- ===== src/Client.antt =====
-- client_sdk, and the client that the market maker of the simulation derives from it.
pub mod FixClient
pub mod EndToEnd
