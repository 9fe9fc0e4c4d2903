-- ===== src/Transport.antt =====
-- libs/transport: the messages between the services, as protocol buffers.
pub mod Proto
pub mod Messaging
pub mod Decoding
pub mod RoundTrip
