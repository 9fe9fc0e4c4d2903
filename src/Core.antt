-- ===== src/Core.antt =====
-- libs/core: the types and the small components that every service shares.
pub mod Orders
pub mod Containers
pub mod ThreadSafeQueue
