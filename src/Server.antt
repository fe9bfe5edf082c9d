-- ===== src/Server.antt =====
-- The collector daemon: server/src.
pub mod Drivers
pub mod Output
pub mod Subscriptions
pub mod Heartbeat
pub mod Messages
pub mod Logic
pub mod BitReader
pub mod Sldc
pub mod Files
pub mod Multipart
