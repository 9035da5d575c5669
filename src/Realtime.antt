-- ===== src/Realtime.antt =====
-- internal/realtime.
pub mod Channels
pub mod Hub
