-- ===== src/Sbcp/Admission.antt =====
-- crates/spec-sbcp/src/sequencer.rs: which instances a sequencer admits.
use publisher.Base.{ℕ, ◌≡◌, ◌↔◌, ◌⊎◌, ap, Bool, true, false, not, Option, none, some, arith}
use publisher.Base.Tests.{◌==◌, if◌then◌else◌}
use publisher.Base.Maps.{is_some}
use publisher.Base.Results.{Result, ok, err}
use publisher.Spec.Primitives.{InstanceId, PeriodId, SequenceNumber}
use publisher.Sbcp.Block.{PendingBlock}
use publisher.Sbcp.Sequencer.{
  SequencerState, can_include_local_tx, start_on, on_start_instance, low_sequence_number, is_low,
  SequencerError, active_instance_exists, period_id_mismatch,
}

-- Three tests in a row.
abbrev gated :
    {S : Type 0}
    → S
    → S
    → Bool
    → Bool
    → Bool
    → SequencerError
    → SequencerError
    → SequencerError
    → S × Result SequencerError (Unit {0})
gated s t a b c e f g =
    if a then (s, err e) else if b then (s, err f) else if c then (s, err g) else (t, ok tt)

three_gates :
    {S : Type 0} (s t : S) (a b c : Bool) (e f g : SequencerError)
    → ((gated s t a b c e f g).1 ≡ ok tt) ↔ ((a ≡ false) × (b ≡ false) × (c ≡ false))
three_gates s t true b c e f g = ground arith
three_gates s t false true c e f g = ground arith
three_gates s t false false true e f g = ground arith
three_gates s t false false false e f g = ground arith

is_none : {A : Type 0} (o : Option A) → (is_some o ≡ false) ↔ (o ≡ none)
is_none none = ground arith
is_none (some x) = ground arith

same_period : (m n : ℕ) → (not (m == n) ≡ false) ↔ (m ≡ n)
same_period m n = (λ h. ground arith, λ h. ground arith)

start_on_admits :
    (s : SequencerState) (p : PendingBlock) (id : InstanceId) (period : PeriodId)
    (seq : SequenceNumber)
    → ((start_on s (some p) id period seq).1 ≡ ok tt) ↔ (
        (s.active_instance_id ≡ none)
        × (p.period_id ≡ period)
        × (is_low s.last_sequence_number seq ≡ false))
unfolding start_on
start_on_admits s p id period seq =
    let gates =
      three_gates s _ (is_some s.active_instance_id) (not (p.period_id == period))
        (is_low s.last_sequence_number seq) active_instance_exists period_id_mismatch
        low_sequence_number in
    let free = is_none s.active_instance_id in
    let same = same_period p.period_id period in
    (
      λ e. let (a, b, c) = gates.0 e in (free.0 a, same.0 b, c),
      λ (a, b, c). gates.1 (free.1 a, same.1 b, c),
    )

start_on-some :
    (s : SequencerState) (p : PendingBlock) (id : InstanceId) (period : PeriodId)
    (seq : SequenceNumber)
    → s.pending_block ≡ some p
    → on_start_instance s id period seq ≡ start_on s (some p) id period seq
unfolding on_start_instance
start_on-some s p id period seq e = ap (λ o. start_on s o id period seq) e

start_on_effect :
    (s : SequencerState) (p : PendingBlock) (id : InstanceId) (period : PeriodId)
    (seq : SequenceNumber)
    → s.pending_block ≡ some p
    → ((start_on s (some p) id period seq).0 ≡ s)
      ⊎ (((start_on s (some p) id period seq).0
            ≡ record s { active_instance_id = some id; last_sequence_number = some seq })
          × (can_include_local_tx (start_on s (some p) id period seq).0 ≡ ok false))
unfolding start_on can_include_local_tx
start_on_effect s p id period seq e = ground arith

-- With a block open, an instance is admitted exactly if the block is of its period, no instance is
-- active, and its number is above the last one; then it is active, its number is the last one and
-- local transactions are held back, and otherwise nothing changes.
pub on_start_instance_lem :
    (s : SequencerState) (p : PendingBlock) (id : InstanceId) (period : PeriodId)
    (seq : SequenceNumber)
    → s.pending_block ≡ some p
    → (((on_start_instance s id period seq).1 ≡ ok tt) ↔ (
        (s.active_instance_id ≡ none)
        × (p.period_id ≡ period)
        × (is_low s.last_sequence_number seq ≡ false)))
      × (((on_start_instance s id period seq).0 ≡ s)
          ⊎ (((on_start_instance s id period seq).0
                ≡ record s { active_instance_id = some id; last_sequence_number = some seq })
              × (can_include_local_tx (on_start_instance s id period seq).0 ≡ ok false)))
on_start_instance_lem s p id period seq e =
    rw (start_on-some s p id period seq e)
      (start_on_admits s p id period seq, start_on_effect s p id period seq e)
