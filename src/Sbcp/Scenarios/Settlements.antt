-- ===== src/Sbcp/Scenarios/Settlements.antt =====
-- crates/spec-sbcp/src/sequencer.rs, `mod tests`: periods, settlement and rollback.
use publisher.Base.{◌≡◌, refl, Option, none, some, [], ◌∷◌, ℕ_discrete}
use publisher.Base.Maps.{get, insert}
use publisher.Base.Words.{add64, sub64}
use publisher.Base.Results.{ok, err}
use publisher.Spec.Primitives.{Bytes, codes, text_discrete, InstanceId, PeriodId, SuperblockNumber}
use publisher.Spec.Instance.{XtRequest}
use publisher.Sbcp.Block.{BlockNumber, SealedBlockHeader}
use publisher.Sbcp.Sequencer.{
  SequencerState, request_proofs, send_proof, forward_request, new, begin_block, start_period,
  on_start_instance, end_block, receive_xt_request, advance_settled_state, rollback,
  mismatched_finalized_state,
}
use publisher.Sbcp.Scenarios.Blocks.{filled, mk_header, mk_settled, answering}

-- `set_active_instance` and `insert_sealed_block`.
abbrev set_active_instance : SequencerState → Option InstanceId → SequencerState
set_active_instance s id = record s { active_instance_id = id }

abbrev insert_sealed_block : SequencerState → PeriodId → SealedBlockHeader → SequencerState
insert_sealed_block s period sb = record s {
  sealed_block_head = insert ℕ_discrete period sb s.sealed_block_head;
}

abbrev sealed : BlockNumber → PeriodId → SuperblockNumber → SealedBlockHeader
sealed n period sb = record {
  block_header = mk_header n;
  period_id = period;
  superblock_number = sb;
}

abbrev seq_proof : Bytes
seq_proof = codes "seq-proof"

abbrev EndBlockTriggersPrevPeriodSettlement : Type 0
EndBlockTriggersPrevPeriodSettlement =
    let s = (begin_block (new 9 10 (mk_settled 5 40)) 41).0 in
    let rolled = start_period (answering seq_proof) s 10 11 in
    let ended = end_block (answering seq_proof) rolled.0 (mk_header 41) in
    (rolled.1 ≡ [])
    × (rolled.2 ≡ ok tt)
    × (ended.2 ≡ ok tt)
    × (ended.1 ≡ request_proofs (some (mk_header 41)) 10 ∷ send_proof 9 10 seq_proof ∷ [])

EndBlockTriggersPrevPeriodSettlement_holds : EndBlockTriggersPrevPeriodSettlement
unfolding new begin_block start_period end_block add64 sub64 get insert ℕ_discrete
EndBlockTriggersPrevPeriodSettlement_holds = (refl, refl, refl, refl)

abbrev StartPeriodTriggersImmediateSettlementWhenNoPending : Type 0
StartPeriodTriggersImmediateSettlementWhenNoPending =
    let first = start_period (answering seq_proof) (new 10 11 (mk_settled 6 50)) 11 12 in
    let seeded = insert_sealed_block first.0 11 (sealed 51 11 12) in
    let second = start_period (answering seq_proof) seeded 12 13 in
    (first.2 ≡ ok tt)
    × (first.1 ≡ request_proofs none 11 ∷ send_proof 10 11 seq_proof ∷ [])
    × (second.2 ≡ ok tt)
    × (second.1 ≡ request_proofs (some (mk_header 51)) 12 ∷ send_proof 11 12 seq_proof ∷ [])

StartPeriodTriggersImmediateSettlementWhenNoPending_holds :
    StartPeriodTriggersImmediateSettlementWhenNoPending
unfolding new start_period sub64 get insert ℕ_discrete
StartPeriodTriggersImmediateSettlementWhenNoPending_holds = (refl, refl, refl, refl)

abbrev StartPeriodActiveInstanceDoesNotDefer : Type 0
StartPeriodActiveInstanceDoesNotDefer =
    let s = set_active_instance (new 2 3 (mk_settled 1 10)) (some (filled 1)) in
    let started = start_period (answering []) s 3 4 in
    (started.2 ≡ ok tt) × (started.1 ≡ request_proofs none 3 ∷ send_proof 2 3 [] ∷ [])

StartPeriodActiveInstanceDoesNotDefer_holds : StartPeriodActiveInstanceDoesNotDefer
unfolding new start_period sub64 get
StartPeriodActiveInstanceDoesNotDefer_holds = (refl, refl)

abbrev forwarded : XtRequest
forwarded = record {
  transactions =
      record { chain_id = 1; transactions = codes "a" ∷ [] }
      ∷ record { chain_id = 2; transactions = codes "b" ∷ [] }
      ∷ [];
}

abbrev ReceiveXtRequestForwardsToPublisher : Type 0
ReceiveXtRequestForwardsToPublisher =
    ((receive_xt_request (answering []) forwarded).1 ≡ ok tt)
    × ((receive_xt_request (answering []) forwarded).0 ≡ forward_request forwarded ∷ [])

ReceiveXtRequestForwardsToPublisher_holds : ReceiveXtRequestForwardsToPublisher
unfolding receive_xt_request
ReceiveXtRequestForwardsToPublisher_holds = (refl, refl)

abbrev SettledStateMonotonic : Type 0
SettledStateMonotonic =
    let same = advance_settled_state (new 1 2 (mk_settled 1 5)) (mk_settled 1 5) in
    let forward = advance_settled_state same (mk_settled 2 6) in
    (same.settled_state.superblock_number ≡ 1) × (forward.settled_state.superblock_number ≡ 2)

SettledStateMonotonic_holds : SettledStateMonotonic
unfolding new advance_settled_state
SettledStateMonotonic_holds = (refl, refl)

abbrev RollbackRejectsIfMismatch : Type 0
RollbackRejectsIfMismatch =
    (rollback (new 9 10 (mk_settled 4 100)) 5 (filled 9) 9).1 ≡ err mismatched_finalized_state

RollbackRejectsIfMismatch_holds : RollbackRejectsIfMismatch
unfolding new rollback text_discrete
RollbackRejectsIfMismatch_holds = refl

abbrev RollbackDiscardsNewerAndResets : Type 0
RollbackDiscardsNewerAndResets =
    let s = new 9 10 (mk_settled 4 100) in
    let seeded =
      insert_sealed_block
        (insert_sealed_block (insert_sealed_block s 8 (sealed 90 8 3)) 9 (sealed 95 9 4)) 10
        (sealed 99 10 5) in
    let begun = begin_block seeded 101 in
    let started = on_start_instance begun.0 (filled 7) 9 1 in
    let rolled = rollback started.0 4 (filled 1) 12 in
    (begun.1 ≡ ok tt)
    × (started.1 ≡ ok tt)
    × (rolled.1 ≡ ok (mk_header 100))
    × (rolled.0.pending_block ≡ none)
    × (rolled.0.active_instance_id ≡ none)
    × (get ℕ_discrete 10 rolled.0.sealed_block_head ≡ none)
    × (get ℕ_discrete 9 rolled.0.sealed_block_head ≡ some (sealed 95 9 4))
    × (rolled.0.period_id ≡ 12)
    × (rolled.0.target_superblock_number ≡ 5)

RollbackDiscardsNewerAndResets_holds : RollbackDiscardsNewerAndResets
unfolding new begin_block on_start_instance rollback add64 get insert ℕ_discrete text_discrete
RollbackDiscardsNewerAndResets_holds = (refl, refl, refl, refl, refl, refl, refl, refl, refl)
