-- ===== src/Sbcp/Building.antt =====
-- The sequencer's blocks and instances, over every series of calls.
use publisher.Base.{
  ◌≡◌, refl, sym, ap, ◌∙◌, true, Option, none, some, List, [], ◌∷◌, arith, ℕ_discrete,
}
use mathlib.Core.Logic.{if_pos}
use publisher.Base.Maps.{get, insert, is_some, get-insert}
use publisher.Base.Words.{add64}
use publisher.Spec.Primitives.{
  InstanceId, PeriodId, SequenceNumber, SuperblockNumber, SuperblockHash,
}
use publisher.Sbcp.Block.{BlockNumber, PendingBlock, BlockHeader, SettledState}
use publisher.Sbcp.Sequencer.{
  SequencerState, Remote, new, start_period, begin_block, on_start_instance, on_decided_instance,
  end_on, end_block, advance_settled_state, rollback,
}

abbrev IsNext : Option PendingBlock → BlockNumber → Type 0
IsNext none head = Unit
IsNext (some p) head = p.number ≡ add64 head 1

-- The open block follows the head, and an instance is active only while a block is open.
pub record IsBuilding (s : SequencerState) : Type 0 where
  pub next : IsNext s.pending_block s.head
  pub locked : is_some s.active_instance_id ≡ true → is_some s.pending_block ≡ true

pub data Event : Type 0 where
  period_started : PeriodId → SuperblockNumber → Event
  block_begun : BlockNumber → Event
  instance_started : InstanceId → PeriodId → SequenceNumber → Event
  instance_decided : InstanceId → Event
  block_ended : BlockHeader → Event
  settled : SettledState → Event
  rolled_back : SuperblockNumber → SuperblockHash → PeriodId → Event

unfoldable pub step : Remote → SequencerState → Event → SequencerState
unfolding start_period begin_block on_start_instance on_decided_instance end_block
    advance_settled_state rollback
step remote s (period_started period target) = (start_period remote s period target).0
step remote s (block_begun number) = (begin_block s number).0
step remote s (instance_started id period seq) = (on_start_instance s id period seq).0
step remote s (instance_decided id) = (on_decided_instance s id).0
step remote s (block_ended b) = (end_block remote s b).0
step remote s (settled state) = advance_settled_state s state
step remote s (rolled_back number hash period) = (rollback s number hash period).0

unfoldable pub run : Remote → SequencerState → List Event → SequencerState
unfolding step
run remote s [] = s
run remote s (e ∷ es) = run remote (step remote s e) es

step-IsBuilding :
    (remote : Remote) (s : SequencerState) (e : Event) → IsBuilding s → IsBuilding (step remote s e)
unfolding step
step-IsBuilding remote s (period_started period target) v = ground arith
step-IsBuilding remote s (block_begun number) v = ground arith
step-IsBuilding remote s (instance_started id period seq) v = ground arith
step-IsBuilding remote s (instance_decided id) v = ground arith
step-IsBuilding remote s (block_ended b) v = ground arith
step-IsBuilding remote s (settled state) v = ground arith
step-IsBuilding remote s (rolled_back number hash period) v = ground arith

run-IsBuilding_from :
    (remote : Remote) (s : SequencerState) (es : List Event)
    → IsBuilding s
    → IsBuilding (run remote s es)
unfolding run
run-IsBuilding_from remote s [] v = v
run-IsBuilding_from remote s (e ∷ es) v =
    run-IsBuilding_from remote (step remote s e) es (step-IsBuilding remote s e v)

-- From a new sequencer, whatever is called, an open block has the number after the head, and an
-- instance is active only while a block is open.
pub run-IsBuilding :
    (remote : Remote) (period : PeriodId) (target : SuperblockNumber) (start : SettledState)
    (es : List Event)
    → IsBuilding (run remote (new period target start) es)
unfolding new
run-IsBuilding remote period target start es =
    run-IsBuilding_from remote (new period target start) es (record { next = tt; locked = λ e. cc })

end_on-some :
    (remote : Remote) (s : SequencerState) (p : PendingBlock) (b : BlockHeader)
    → s.pending_block ≡ some p
    → end_block remote s b ≡ end_on remote s (some p) b
unfolding end_block
end_on-some remote s p b e = ap (λ o. end_on remote s o b) e

end_on_seals :
    (remote : Remote) (s : SequencerState) (p : PendingBlock) (b : BlockHeader)
    → p.number ≡ b.number
    → s.active_instance_id ≡ none
    → ((end_on remote s (some p) b).0.head ≡ b.number)
      × ((end_on remote s (some p) b).0.pending_block ≡ none)
      × ((end_on remote s (some p) b).0.sealed_block_head
          ≡ insert ℕ_discrete p.period_id
              (record {
                block_header = b;
                period_id = p.period_id;
                superblock_number = p.superblock_number;
              })
              s.sealed_block_head)
unfolding end_on
end_on_seals remote s p b n a = ground arith

next_number :
    (s : SequencerState) (p : PendingBlock)
    → IsNext s.pending_block s.head
    → s.pending_block ≡ some p
    → p.number ≡ add64 s.head 1
next_number s p v e = ground arith

-- A block that is sealed becomes the head, next to the one before, and the last block of its period.
end_block_seals :
    (remote : Remote) (s : SequencerState) (p : PendingBlock) (b : BlockHeader)
    → IsBuilding s
    → s.pending_block ≡ some p
    → p.number ≡ b.number
    → s.active_instance_id ≡ none
    → ((end_block remote s b).0.head ≡ add64 s.head 1)
      × ((end_block remote s b).0.pending_block ≡ none)
      × (get ℕ_discrete p.period_id (end_block remote s b).0.sealed_block_head
          ≡ some (record {
            block_header = b;
            period_id = p.period_id;
            superblock_number = p.superblock_number;
          }))
end_block_seals remote s p b v e n a =
    let sealed = end_on_seals remote s p b n a in
    rw (end_on-some remote s p b e) (
      sealed.0 ∙ sym n ∙ next_number s p v.next e,
      sealed.1,
      ap (get ℕ_discrete p.period_id) sealed.2
          ∙ get-insert ℕ_discrete p.period_id p.period_id _ s.sealed_block_head
          ∙ if_pos (ℕ_discrete p.period_id p.period_id) refl _ _,
    )
