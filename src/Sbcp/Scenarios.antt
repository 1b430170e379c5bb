-- ===== src/Sbcp/Scenarios.antt =====
-- The unit tests of crates/spec-sbcp, as what they assert of the model.
pub mod Blocks
pub mod Settlements
pub mod Instances
pub mod Proving
pub mod Ids
