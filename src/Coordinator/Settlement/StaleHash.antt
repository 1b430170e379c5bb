-- ===== src/Coordinator/Settlement/StaleHash.antt =====
-- crates/coordinator/src/coordinator.rs and crates/spec-sbcp/src/sequencer.rs: what a rollback
-- message says after a submission has succeeded.
use publisher.Base.{ℕ, ◌≡◌, ◌≢◌, arith}
use publisher.Base.Results.{err}
use publisher.Coordinator.State.{CoordinatorState}
use publisher.Coordinator.Settlement.{finalize, begin_rollback}
use publisher.Sbcp.Sequencer
use publisher.Sbcp.Sequencer.{SequencerState, mismatched_finalized_state}

-- After a superblock is finalized, a rollback names its number with the hash that the coordinator
-- held before, and a sequencer that settled that superblock under another hash refuses it and keeps
-- its state.
pub rollback_after_finalize :
    (s : CoordinatorState) (n : ℕ) (q : SequencerState)
    → q.settled_state.superblock_number ≡ n
    → q.settled_state.superblock_hash ≢ s.last_finalized_superblock_hash
    → let message = (begin_rollback (finalize s n)).1 in
      (message.last_finalized_superblock_number ≡ n)
      × ((Sequencer.rollback q message.last_finalized_superblock_number
            message.last_finalized_superblock_hash message.period_id)
          ≡ (q, err mismatched_finalized_state))
unfolding finalize begin_rollback Sequencer.rollback
rollback_after_finalize s n q settled other = ground arith
