-- ===== src/Coordinator.antt =====
-- crates/coordinator: two-phase commit, settlement proofs, and message dispatch.
pub mod ProofTypes
pub mod State
pub mod Requests
pub mod Rounds
pub mod Queue
pub mod Holds
pub mod Exclusion
pub mod Settlement
pub mod Submission
pub mod Mailbox
pub mod Service
pub mod Messaging
pub mod ChainIds
pub mod Dispatch
pub mod Voting
pub mod History
pub mod Registry
pub mod Locking
