-- ===== src/Ipc.antt =====
-- libs/inter_process and the locks of libs/core: what processes and threads share.
pub mod Ring
pub mod System
pub mod Invariant
pub mod Moves
pub mod Publishing
pub mod Taking
pub mod Safety
pub mod Runs
pub mod Order
pub mod Calls
pub mod Progress
pub mod Handle
