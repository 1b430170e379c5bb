-- ===== src/Sbcp/Sequencer.antt =====
-- crates/spec-sbcp/src/sequencer.rs. A method returns the state, its calls of the prover and of the
-- messenger in order, and its result. What the prover and the messenger answer are parameters.
use publisher.Base.{
  ite, Bool, true, false, not, ◌||◌, Option, none, some, List, [], ◌∷◌, ℕ_discrete,
}
use publisher.Base.Tests.{ltb, leb, ◌==◌, if◌then◌else◌}
use publisher.Base.Maps.{get, insert, is_some}
use publisher.Base.Words.{add64, sub64}
use publisher.Base.Results.{Result, ok, err}
use publisher.Spec.Primitives.{
  Bytes, Text, text_discrete, InstanceId, PeriodId, SequenceNumber, SuperblockNumber,
  SuperblockHash,
}
use publisher.Spec.Instance.{XtRequest}
use publisher.Sbcp.Block.{BlockNumber, PendingBlock, BlockHeader, SealedBlockHeader, SettledState}

-- `foreign` is a boxed error of the prover or of the messenger.
pub data SequencerError : Type 0 where
  block_seal_mismatch : SequencerError
  block_already_open : SequencerError
  block_not_sequential : SequencerError
  no_pending_block : SequencerError
  active_instance_exists : SequencerError
  no_active_instance : SequencerError
  active_instance_mismatch : SequencerError
  mismatched_finalized_state : SequencerError
  period_id_mismatch : SequencerError
  low_sequence_number : SequencerError
  foreign : Text → SequencerError

pub data Call : Type 0 where
  request_proofs : Option BlockHeader → SuperblockNumber → Call
  send_proof : PeriodId → SuperblockNumber → Bytes → Call
  forward_request : XtRequest → Call

pub record SequencerState : Type 0 where
  pub period_id : PeriodId
  pub target_superblock_number : SuperblockNumber
  pub pending_block : Option PendingBlock
  pub active_instance_id : Option InstanceId
  pub last_sequence_number : Option SequenceNumber
  pub head : BlockNumber
  pub sealed_block_head : List (PeriodId × SealedBlockHeader)
  pub settled_state : SettledState

abbrev pub Answer : Type 0 → Type 0
Answer A = Result SequencerError A

-- `SequencerProver` and `SequencerMessenger`, by what they answer.
pub record Remote : Type 0 where
  pub prove : Option BlockHeader → SuperblockNumber → Result Text Bytes
  pub send : PeriodId → SuperblockNumber → Bytes → Result Text (Unit {0})
  pub forward : XtRequest → Result Text (Unit {0})

unfoldable pub new : PeriodId → SuperblockNumber → SettledState → SequencerState
new period_id target_superblock settled = record {
  period_id = period_id;
  target_superblock_number = target_superblock;
  pending_block = none;
  active_instance_id = none;
  last_sequence_number = none;
  head = settled.block_header.number;
  sealed_block_head = [];
  settled_state = settled;
}

abbrev boxed {ℓ} : {A : Type ℓ} → Result Text A → Result SequencerError A
boxed (ok a) = ok a
boxed (err e) = err (foreign e)

unfoldable pub receive_xt_request : Remote → XtRequest → List Call × Answer (Unit {0})
receive_xt_request remote request = (forward_request request ∷ [], boxed (remote.forward request))

unfoldable pub send_proved :
    Remote → Call → PeriodId → SuperblockNumber → Result Text Bytes → List Call × Answer (Unit {0})
send_proved remote asked period_id number (ok proof) =
    (asked ∷ send_proof period_id number proof ∷ [], boxed (remote.send period_id number proof))
send_proved remote asked period_id number (err e) = (asked ∷ [], err (foreign e))

abbrev pub header_of : Option SealedBlockHeader → Option BlockHeader
header_of none = none
header_of (some sealed) = some sealed.block_header

unfoldable pub start_settlement :
    Remote → SequencerState → PeriodId → SuperblockNumber → List Call × Answer (Unit {0})
unfolding send_proved
start_settlement remote s period_id number =
    let header = header_of (get ℕ_discrete period_id s.sealed_block_head) in
    send_proved remote (request_proofs header number) period_id number (remote.prove header number)

unfoldable pub start_period :
    Remote
    → SequencerState
    → PeriodId
    → SuperblockNumber
    → SequencerState × List Call × Answer (Unit {0})
unfolding start_settlement
start_period remote s period_id target =
    let s' = record s {
      period_id = period_id;
      target_superblock_number = target;
      last_sequence_number = none;
    } in
    if is_some s.pending_block
    then (s', [], ok tt)
    else (let (calls, answer) = start_settlement remote s' (sub64 period_id 1) (sub64 target 1) in
        (s', calls, answer))

unfoldable pub begin_block : SequencerState → BlockNumber → SequencerState × Answer (Unit {0})
begin_block s block_number =
    if is_some s.pending_block
    then (s, err block_already_open)
    else if not (block_number == add64 s.head 1)
    then (s, err block_not_sequential)
    else (
      record s {
        pending_block = some (record {
          number = block_number;
          period_id = s.period_id;
          superblock_number = s.target_superblock_number;
        });
      },
      ok tt,
    )

unfoldable pub can_include_local_tx : SequencerState → Answer Bool
can_include_local_tx s =
    if is_some s.pending_block
    then ok (not (is_some s.active_instance_id))
    else err no_pending_block

-- `if let Some(last_seq)` and its test.
unfoldable pub is_low : Option SequenceNumber → SequenceNumber → Bool
is_low none sequence_number = false
is_low (some last_seq) sequence_number = leb sequence_number last_seq

unfoldable pub start_on :
    SequencerState
    → Option PendingBlock
    → InstanceId
    → PeriodId
    → SequenceNumber
    → SequencerState × Answer (Unit {0})
unfolding is_low
start_on s none id period_id sequence_number = (s, err no_pending_block)
start_on s (some pending) id period_id sequence_number =
    if is_some s.active_instance_id
    then (s, err active_instance_exists)
    else if not (pending.period_id == period_id)
    then (s, err period_id_mismatch)
    else if is_low s.last_sequence_number sequence_number
    then (s, err low_sequence_number)
    else (
      record s { last_sequence_number = some sequence_number; active_instance_id = some id },
      ok tt,
    )

unfoldable pub on_start_instance :
    SequencerState → InstanceId → PeriodId → SequenceNumber → SequencerState × Answer (Unit {0})
unfolding start_on
on_start_instance s id period_id sequence_number =
    start_on s s.pending_block id period_id sequence_number

unfoldable pub decide_on :
    SequencerState → Option InstanceId → InstanceId → SequencerState × Answer (Unit {0})
decide_on s none id = (s, err no_active_instance)
decide_on s (some active_id) id =
    ite (text_discrete active_id id) (record s { active_instance_id = none }, ok tt)
      (s, err active_instance_mismatch)

unfoldable pub on_decided_instance :
    SequencerState → InstanceId → SequencerState × Answer (Unit {0})
unfolding decide_on
on_decided_instance s id = decide_on s s.active_instance_id id

unfoldable pub end_on :
    Remote
    → SequencerState
    → Option PendingBlock
    → BlockHeader
    → SequencerState × List Call × Answer (Unit {0})
unfolding start_settlement
end_on remote s none b = (s, [], err no_pending_block)
end_on remote s (some pending) b =
    let s' = record s {
      sealed_block_head =
          insert ℕ_discrete pending.period_id
            (record {
              block_header = b;
              period_id = pending.period_id;
              superblock_number = pending.superblock_number;
            })
            s.sealed_block_head;
      pending_block = none;
      head = b.number;
    } in
    if not (pending.number == b.number)
    then (s, [], err block_seal_mismatch)
    else if is_some s.active_instance_id
    then (s, [], err active_instance_exists)
    else if ltb pending.period_id s.period_id
    then (let (calls, answer) =
          start_settlement remote s' (sub64 s.period_id 1) (sub64 s.target_superblock_number 1) in
        (s', calls, answer))
    else (s', [], ok tt)

unfoldable pub end_block :
    Remote → SequencerState → BlockHeader → SequencerState × List Call × Answer (Unit {0})
unfolding end_on
end_block remote s b = end_on remote s s.pending_block b

unfoldable pub advance_settled_state : SequencerState → SettledState → SequencerState
advance_settled_state s settled =
    if leb settled.superblock_number s.settled_state.superblock_number
    then s
    else record s { settled_state = settled }

-- `retain` of the sealed blocks up to the finalized superblock.
unfoldable pub retain_up_to :
    SuperblockNumber → List (PeriodId × SealedBlockHeader) → List (PeriodId × SealedBlockHeader)
retain_up_to finalized [] = []
retain_up_to finalized ((p, sb) ∷ rest) =
    let others = retain_up_to finalized rest in
    if leb sb.superblock_number finalized then (p, sb) ∷ others else others

unfoldable pub rollback :
    SequencerState
    → SuperblockNumber
    → SuperblockHash
    → PeriodId
    → SequencerState × Answer BlockHeader
unfolding retain_up_to
rollback s number hash current_period_id =
    let settled = s.settled_state in
    if not (number == settled.superblock_number)
      || ite (text_discrete hash settled.superblock_hash) false true
    then (s, err mismatched_finalized_state)
    else (
      record s {
        sealed_block_head = retain_up_to settled.superblock_number s.sealed_block_head;
        pending_block = none;
        active_instance_id = none;
        head = settled.block_header.number;
        period_id = current_period_id;
        target_superblock_number = add64 settled.superblock_number 1;
      },
      ok settled.block_header,
    )
