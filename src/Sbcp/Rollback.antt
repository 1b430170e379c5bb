-- ===== src/Sbcp/Rollback.antt =====
-- crates/spec-sbcp/src/publisher.rs and crates/spec-sbcp/src/sequencer.rs: the instances that follow
-- a rollback.
use publisher.Base.{◌≤◌, ◌≡◌, sym, ap, ◌∙◌, none, some, arith}
use publisher.Base.Words.{add64}
use publisher.Base.Results.{ok, err}
use publisher.Spec.Primitives.{
  Bytes, InstanceId, PeriodId, SequenceNumber, SuperblockNumber, SuperblockHash,
}
use publisher.Spec.Instance.{XtRequest, Instance}
use publisher.Sbcp.Block.{PendingBlock, BlockHeader}
use publisher.Sbcp.Publisher
use publisher.Sbcp.Publisher.{PublisherState, start_instance}
use publisher.Sbcp.Sequencer
use publisher.Sbcp.Sequencer.{
  SequencerState, begin_block, on_start_instance, start_on, is_low, low_sequence_number,
}
use publisher.Sbcp.Locks.{start_instance_locks}

rollback_accepted :
    (s : SequencerState) (number : SuperblockNumber) (hash : SuperblockHash) (period : PeriodId)
    (header : BlockHeader)
    → (Sequencer.rollback s number hash period).1 ≡ ok header
    → let s' = (Sequencer.rollback s number hash period).0 in
      (s'.pending_block ≡ none)
      × (s'.active_instance_id ≡ none)
      × (s'.period_id ≡ period)
      × (s'.head ≡ header.number)
      × (s'.last_sequence_number ≡ s.last_sequence_number)
unfolding Sequencer.rollback
rollback_accepted s number hash period header e = ground arith

begun :
    (s : SequencerState) (header : BlockHeader)
    → s.pending_block ≡ none
    → s.head ≡ header.number
    → (begin_block s (add64 header.number 1)).0 ≡ record s {
      pending_block = some (record {
        number = add64 header.number 1;
        period_id = s.period_id;
        superblock_number = s.target_superblock_number;
      });
    }
unfolding begin_block
begun s header e h = ground (arith)

low :
    (s : SequencerState) (p : PendingBlock) (id : InstanceId) (period : PeriodId)
    (seq last : SequenceNumber)
    → s.pending_block ≡ some p
    → p.period_id ≡ period
    → s.active_instance_id ≡ none
    → s.last_sequence_number ≡ some last
    → seq ≤ last
    → on_start_instance s id period seq ≡ (s, err low_sequence_number)
unfolding on_start_instance start_on is_low
low s p id period seq last e f g h k = ground arith

-- After a rollback of both sides to the same period, the first instance that the publisher starts
-- has number one, and a sequencer that admitted an instance before the rollback, opened the next
-- block and is sent it refuses it as too low.
pub rollback_refuses_first :
    (sha256 : Bytes → Bytes) (q : PublisherState) (request : XtRequest) (i : Instance)
    (s : SequencerState) (number : SuperblockNumber) (hash : SuperblockHash) (header : BlockHeader)
    (last : SequenceNumber)
    → (Sequencer.rollback s number hash q.period_id).1 ≡ ok header
    → s.last_sequence_number ≡ some last
    → 1 ≤ last
    → (start_instance sha256 (Publisher.rollback q).0 request).2 ≡ ok i
    → let after =
        (begin_block (Sequencer.rollback s number hash q.period_id).0 (add64 header.number 1)).0 in
      (i.sequence_number ≡ 1)
      × (on_start_instance after i.id i.period_id i.sequence_number
          ≡ (after, err low_sequence_number))
unfolding Publisher.rollback add64
rollback_refuses_first sha256 q request i s number hash header last e h one begins =
    let rolled = (Sequencer.rollback s number hash q.period_id).0 in
    let (closed, idle, period, head, kept) = rollback_accepted s number hash q.period_id header e in
    let opened = begun rolled header closed head in
    let (free, locked, same, of_period, numbered, next) =
      start_instance_locks sha256 (Publisher.rollback q).0 request i 0 begins in
    (
      numbered,
      low (begin_block rolled (add64 header.number 1)).0 _ i.id i.period_id i.sequence_number last
          (ap (λ (t : SequencerState). t.pending_block) opened) (period ∙ sym of_period)
          (ap (λ (t : SequencerState). t.active_instance_id) opened ∙ idle)
          (ap (λ (t : SequencerState). t.last_sequence_number) opened ∙ kept ∙ h)
          (ground (arith, numbered)),
    )
