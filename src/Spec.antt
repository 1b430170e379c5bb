-- ===== src/Spec.antt =====
-- crates/spec: the domain types that every other crate uses.
pub mod Primitives
pub mod Instance
