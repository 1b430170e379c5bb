-- ===== src/Transport.antt =====
-- crates/transport: framing and the connection registry.
pub mod Framing
pub mod Utf8
pub mod Reading
pub mod Session
pub mod Open
pub mod Connections
pub mod Starting
