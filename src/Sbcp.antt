-- ===== src/Sbcp.antt =====
-- crates/spec-sbcp: instance ids, and the state machines of the publisher and of a sequencer.
pub mod Id
pub mod Publisher
pub mod Proofs
pub mod Aggregation
pub mod Window
pub mod Locks
pub mod Block
pub mod Sequencer
pub mod Building
pub mod Admission
pub mod Rollback
pub mod Settling
pub mod Together
pub mod Scenarios
