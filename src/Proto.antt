-- ===== src/Proto.antt =====
-- crates/spec-proto: the wire messages and their conversions from and to the domain types.
pub mod Messages
pub mod Convert
