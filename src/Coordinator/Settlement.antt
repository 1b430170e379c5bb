-- ===== src/Coordinator/Settlement.antt =====
-- crates/coordinator/src/coordinator.rs: periods, the collection of superblock proofs, and the
-- rollback; each function is what the source does under one acquisition of the lock.
pub mod Expiry
pub mod Coverage
pub mod StaleHash
pub mod Resubmission
use publisher.Base.{ℕ, ◌-◌, Bool, true, false, ◌&&◌, Option, none, some, List, [], map, ℕ_discrete}
use publisher.Base.Tests.{ltb, leb, if◌then◌else◌}
use publisher.Base.Lists.{length}
use publisher.Base.Maps.{insert}
use publisher.Base.Words.{add64, to_be_bytes}
use publisher.Base.Results.{Result, ok, err}
use publisher.Spec.Primitives.{Text, PeriodId, SuperblockNumber}
use publisher.Proto.Messages.{Rollback}
use publisher.Coordinator.ProofTypes.{B256, ProofData}
use publisher.Coordinator.State.{CoordinatorState}

-- What `advance_period` does under the lock: the next period and the target superblock.
unfoldable pub begin_period : CoordinatorState → CoordinatorState × PeriodId × SuperblockNumber
begin_period s =
    let pid = add64 s.current_period_id 1 in
    (record s { current_period_id = pid; next_sequence_num = 1 }, pid, s.next_superblock_number)

-- `init_from_l1` with what the contract answered.
unfoldable pub init_superblock :
    CoordinatorState → Result Text (Option (ℕ × B256)) → CoordinatorState
init_superblock s (ok (some (sb_num, sb_hash))) = record s {
  last_finalized_superblock_number = sb_num;
  last_finalized_superblock_hash = to_be_bytes 32 sb_hash;
  next_superblock_number = add64 sb_num 1;
}
init_superblock s (ok none) = s
init_superblock s (err e) = s

unfoldable pub start_collection : Option ℕ → ℕ → Option ℕ
start_collection none now = some now
start_collection (some started) now = some started

-- What `receive_proof` does under the lock: `some` holds the number to submit and the proofs, once
-- every registered chain has sent one.
unfoldable pub collect_proof :
    CoordinatorState → ℕ → ℕ → ProofData → ℕ → CoordinatorState × Option (ℕ × List (ℕ × ProofData))
unfolding start_collection
collect_proof s superblock_number chain_id proof now =
    let total = length s.chain_to_client in
    let stored =
      insert ℕ_discrete chain_id
        (record { superblock_number = superblock_number; proof_data = proof }) s.pending_proofs in
    if ltb 0 total && leb total (length stored)
    then (
      record s { pending_proofs = []; proof_collection_started = none },
      some (s.next_superblock_number, map (λ e. (e.0, e.1.proof_data)) stored),
    )
    else (
      record s {
        pending_proofs = stored;
        proof_collection_started = start_collection s.proof_collection_started now;
      },
      none,
    )

-- What the spawned task does once the submission has succeeded.
unfoldable pub finalize : CoordinatorState → ℕ → CoordinatorState
finalize s superblock_number = record s {
  last_finalized_superblock_number = superblock_number;
  next_superblock_number = add64 superblock_number 1;
}

-- The test of `CoordinatorState::reap_expired_proofs`.
unfoldable pub is_expired : Option ℕ → ℕ → ℕ → Bool
is_expired none now proof_window = false
is_expired (some started) now proof_window = leb proof_window (now - started)

unfoldable pub reap_expired_proofs : CoordinatorState → ℕ → ℕ → CoordinatorState × Bool
unfolding is_expired
reap_expired_proofs s now proof_window =
    if is_expired s.proof_collection_started now proof_window
    then (record s { pending_proofs = []; proof_collection_started = none }, true)
    else (s, false)

-- The second locked part of `Coordinator::reap_expired_proofs`, and the message that it fills.
unfoldable pub begin_rollback : CoordinatorState → CoordinatorState × Rollback
begin_rollback s = (
  record s { next_superblock_number = add64 s.last_finalized_superblock_number 1 },
  record {
    period_id = s.current_period_id;
    last_finalized_superblock_number = s.last_finalized_superblock_number;
    last_finalized_superblock_hash = s.last_finalized_superblock_hash;
  },
)
