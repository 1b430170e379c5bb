-- ===== src/Sbcp/Together.antt =====
-- crates/spec-sbcp/src/publisher.rs and crates/spec-sbcp/src/sequencer.rs together: a sequencer gets
-- every message of the publisher, in order, between any calls of its own.
use publisher.Base.{
  ◌+◌, ◌≤◌, ◌<◌, ◌≡◌, refl, sym, ◌∙◌, false, Option, none, some, List, [], ◌∷◌, arith,
}
use publisher.Base.Lists.{length}
use publisher.Base.Words.{add64, u64_mod}
use publisher.Base.Results.{Result, ok, err}
use publisher.Spec.Primitives.{Bytes, SequenceNumber, SuperblockNumber, SuperblockHash}
use publisher.Spec.Instance.{XtRequest, Instance}
use publisher.Sbcp.Block.{BlockNumber, BlockHeader, SettledState, PendingBlock}
use publisher.Sbcp.Publisher
use publisher.Sbcp.Publisher.{PublisherState, PublisherError, Call}
use publisher.Sbcp.Sequencer
use publisher.Sbcp.Sequencer.{SequencerState, Remote, is_low, on_start_instance}
use publisher.Sbcp.Admission.{on_start_instance_lem}
use publisher.Sbcp.Locks.{start_instance_locks}

pub data Event : Type 0 where
  period_started : Event
  instance_started : XtRequest → Event
  instance_decided : Instance → Event
  settled : SuperblockNumber → SuperblockHash → SettledState → Event
  block_begun : BlockNumber → Event
  block_ended : BlockHeader → Event

abbrev Pair : Type 0
Pair = PublisherState × SequencerState

-- What the sequencer does with what the publisher's call has come to.
abbrev told_period :
    Remote → SequencerState → PublisherState × List Call × Result PublisherError (Unit {0}) → Pair
told_period remote s (q, calls, ok _) =
    (q, (Sequencer.start_period remote s q.period_id q.target_superblock_number).0)
told_period remote s (q, calls, err e) = (q, s)

abbrev told_instance :
    SequencerState → PublisherState × List Call × Result PublisherError Instance → Pair
told_instance s (q, calls, ok i) = (q, (on_start_instance s i.id i.period_id i.sequence_number).0)
told_instance s (q, calls, err e) = (q, s)

module _ (sha256 : Bytes → Bytes) (remote : Remote) where
  unfoldable pub step : Pair → Event → Pair
  unfolding Publisher.start_period Publisher.start_instance Publisher.decide_instance
      Publisher.advance_settled_state Sequencer.start_period on_start_instance
      Sequencer.on_decided_instance Sequencer.advance_settled_state Sequencer.begin_block
      Sequencer.end_block
  step (q, s) period_started = told_period remote s (Publisher.start_period q)
  step (q, s) (instance_started request) =
      told_instance s (Publisher.start_instance sha256 q request)
  step (q, s) (instance_decided i) =
      ((Publisher.decide_instance q i).0, (Sequencer.on_decided_instance s i.id).0)
  step (q, s) (settled number hash state) =
      ((Publisher.advance_settled_state q number hash).0, Sequencer.advance_settled_state s state)
  step (q, s) (block_begun number) = (q, (Sequencer.begin_block s number).0)
  step (q, s) (block_ended b) = (q, (Sequencer.end_block remote s b).0)

  unfoldable pub run : Pair → List Event → Pair
  unfolding step
  run pair [] = pair
  run pair (e ∷ es) = run (step pair e) es

-- The last number that the sequencer saw is none that the publisher has yet to give.
abbrev IsSeen : Option SequenceNumber → SequenceNumber → Type 0
IsSeen none given = Unit
IsSeen (some last) given = last ≤ given

abbrev InStep : Pair → Type 0
InStep (q, s) = IsSeen s.last_sequence_number q.sequence_number

module _ (sha256 : Bytes → Bytes) (remote : Remote) where
  step-InStep :
      (pair : Pair) (e : Event)
      → pair.0.sequence_number + 1 < u64_mod
      → InStep pair
      → InStep (step sha256 remote pair e)
        × ((step sha256 remote pair e).0.sequence_number ≤ pair.0.sequence_number + 1)
  unfolding step add64
  step-InStep (q, s) period_started h v = ground arith
  step-InStep (q, s) (instance_started request) h v = ground arith
  step-InStep (q, s) (instance_decided i) h v = ground arith
  step-InStep (q, s) (settled number hash state) h v = ground arith
  step-InStep (q, s) (block_begun number) h v = ground arith
  step-InStep (q, s) (block_ended b) h v = ground arith

  run-InStep :
      (pair : Pair) (es : List Event)
      → pair.0.sequence_number + length es < u64_mod
      → InStep pair
      → InStep (run sha256 remote pair es)
        × ((run sha256 remote pair es).0.sequence_number ≤ pair.0.sequence_number + length es)
  unfolding run
  run-InStep pair [] h v = (v, omega arith)
  run-InStep pair (e ∷ es) h v =
      let (kept, grown) = step-InStep pair e (omega arith) v in
      let (seen, bounded) = run-InStep (step sha256 remote pair e) es (omega (arith, grown)) kept in
      (seen, omega (arith, grown, bounded))

next_is_not_low :
    (last : Option SequenceNumber) (given next : SequenceNumber)
    → IsSeen last given
    → next ≡ add64 given 1
    → given + 1 < u64_mod
    → is_low last next ≡ false
unfolding is_low add64
next_is_not_low none given next v e h = refl
next_is_not_low (some last) given next v e h = ground arith

-- A new sequencer and a publisher that has numbered no instance yet go through any series of
-- periods, instances, decisions, blocks and settlements, fewer than `u64` can count, without a
-- rollback; whenever the sequencer then has a block of the period of the publisher open and no
-- instance active, it admits the next instance that the publisher starts.
pub run_admits :
    (sha256 : Bytes → Bytes) (remote : Remote) (q : PublisherState) (s : SequencerState)
    (es : List Event) (request : XtRequest) (i : Instance) (p : PendingBlock)
    → q.sequence_number ≡ 0
    → s.last_sequence_number ≡ none
    → length es + 1 < u64_mod
    → (Publisher.start_instance sha256 (run sha256 remote (q, s) es).0 request).2 ≡ ok i
    → (run sha256 remote (q, s) es).1.pending_block ≡ some p
    → p.period_id ≡ (run sha256 remote (q, s) es).0.period_id
    → (run sha256 remote (q, s) es).1.active_instance_id ≡ none
    → (on_start_instance (run sha256 remote (q, s) es).1 i.id i.period_id i.sequence_number).1
      ≡ ok tt
run_admits sha256 remote q s es request i p zero_given unseen short starts block same idle =
    let after = run sha256 remote (q, s) es in
    let (seen, bounded) =
      run-InStep sha256 remote (q, s) es (omega (arith, zero_given)) (ground (arith, unseen)) in
    let (locked, free, requested, of_period, numbered, next) =
      start_instance_locks sha256 after.0 request i 0 starts in
    (on_start_instance_lem after.1 p i.id i.period_id i.sequence_number block).0.1 (
      idle,
      same ∙ sym of_period,
      next_is_not_low after.1.last_sequence_number after.0.sequence_number i.sequence_number seen
          numbered (omega (arith, bounded, zero_given)),
    )
