-- ===== src/Realtime.antt =====
-- internal/realtime: what the hub sends to the clients.
pub mod Messages
pub mod Builder
pub mod Dispatcher
pub mod Hub
