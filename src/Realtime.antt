-- ===== src/Realtime.antt =====
-- apps/realtime: the relay process.
pub mod Json
pub mod Logs
pub mod Proxy
pub mod Connections
