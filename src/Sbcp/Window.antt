-- ===== src/Sbcp/Window.antt =====
-- The publisher never runs ahead of the proof window.
use publisher.Base.{◌+◌, ◌≤◌, ◌<◌, ◌≡◌, ◌≢◌, ◌⊎◌, refl, true, false, inl, inr, List, [], ◌∷◌, arith}
use publisher.Base.Words.{add64, u64_mod, add64_exact}
use publisher.Base.Results.{Result, ok, err}
use publisher.Spec.Primitives.{Bytes, Text, ChainId, PeriodId, SuperblockNumber, SuperblockHash}
use publisher.Spec.Instance.{XtRequest, Instance}
use publisher.Sbcp.Publisher.{
  PublisherState, broadcast_start_period, cannot_start_period, past_window, start_period,
  start_instance, decide_instance, advance_settled_state, rollback, proof_timeout,
}
use publisher.Sbcp.Proofs.{collect, conclude}

abbrev pub IsBehind : PublisherState → Type 0
IsBehind s =
    (s.proof_window ≢ 0)
    × (s.last_finalized_superblock_number + s.proof_window < s.target_superblock_number)

abbrev pub IsWithin : PublisherState → Type 0
IsWithin s =
    (s.proof_window ≡ 0)
    ⊎ (s.target_superblock_number ≤ s.last_finalized_superblock_number + s.proof_window)

past_window_facts :
    (s : PublisherState)
    → s.target_superblock_number + 1 < u64_mod
    → s.last_finalized_superblock_number + 1 + s.proof_window < u64_mod
    → ((past_window s ≡ true) × IsBehind s) ⊎ ((past_window s ≡ false) × IsWithin s)
unfolding past_window
past_window_facts s t w = ground (
  arith,
  add64_exact s.target_superblock_number 1,
  add64_exact 1 s.proof_window,
  add64_exact s.last_finalized_superblock_number (1 + s.proof_window),
)

-- Short of the end of `u64`, `start_period` either starts the next period and superblock with the
-- sequence at zero and tells everybody, if the publisher is within the proof window, or is refused
-- and changes and sends nothing, if it is behind.
pub start_period_lem :
    (s : PublisherState)
    → s.target_superblock_number + 1 < u64_mod
    → s.last_finalized_superblock_number + 1 + s.proof_window < u64_mod
    → s.period_id + 1 < u64_mod
    → ((start_period s ≡ (
      record s {
        period_id = s.period_id + 1;
        target_superblock_number = s.target_superblock_number + 1;
        sequence_number = 0;
      },
      broadcast_start_period (s.period_id + 1) (s.target_superblock_number + 1) ∷ [],
      ok tt,
    ))
        × IsWithin s)
      ⊎ ((start_period s ≡ (
        s,
        [],
        err (
            cannot_start_period s.target_superblock_number
              (s.last_finalized_superblock_number + 1)),
      ))
          × IsBehind s)
unfolding start_period
start_period_lem s t w p = elim (past_window_facts s t w) [
  | inl (past, behind) ↦
      inr (rw (past, add64_exact s.last_finalized_superblock_number 1 (omega arith)) refl, behind)
  | inr (inside, within) ↦ inl (
    rw (inside, add64_exact s.target_superblock_number 1 t, add64_exact s.period_id 1 p) refl,
    within,
  )
]

-- The target lies at most the window behind the superblock that is proved next.
abbrev pub InWindow : PublisherState → Type 0
InWindow s =
    (s.proof_window ≡ 0)
    ⊎ (s.target_superblock_number ≤ s.last_finalized_superblock_number + 1 + s.proof_window)

-- The calls of a publisher, each one critical section; `proved` is the prover's answer.
pub data Event : Type 0 where
  period_started : Event
  instance_started : XtRequest → Event
  instance_decided : Instance → Event
  settled : SuperblockNumber → SuperblockHash → Event
  timed_out : Event
  proof_received : PeriodId → SuperblockNumber → Bytes → ChainId → Event
  proved : SuperblockNumber → Result Text Bytes → Event

unfoldable pub step : (Bytes → Bytes) → PublisherState → Event → PublisherState
unfolding start_period start_instance decide_instance advance_settled_state proof_timeout collect
    conclude
step sha256 s period_started = (start_period s).0
step sha256 s (instance_started request) = (start_instance sha256 s request).0
step sha256 s (instance_decided i) = (decide_instance s i).0
step sha256 s (settled number hash) = (advance_settled_state s number hash).0
step sha256 s timed_out = (proof_timeout s).0
step sha256 s (proof_received period number proof chain) = (collect s period number proof chain).0
step sha256 s (proved number answer) = (conclude s number answer).0

unfoldable pub run : (Bytes → Bytes) → PublisherState → List Event → PublisherState
unfolding step
run sha256 s [] = s
run sha256 s (e ∷ es) = run sha256 (step sha256 s e) es

rollback-InWindow : (s : PublisherState) → InWindow (rollback s).0
unfolding rollback add64
rollback-InWindow s = inr (omega arith)

step-InWindow :
    (sha256 : Bytes → Bytes) (s : PublisherState) (e : Event)
    → InWindow s
    → InWindow (step sha256 s e)
unfolding step past_window add64
step-InWindow sha256 s period_started v = ground arith
step-InWindow sha256 s (instance_started request) v = ground arith
step-InWindow sha256 s (instance_decided i) v = ground arith
step-InWindow sha256 s (settled number hash) v = ground arith
step-InWindow sha256 s timed_out v = rollback-InWindow s
step-InWindow sha256 s (proof_received period number proof chain) v = ground arith
step-InWindow sha256 s (proved number (ok proof)) v = v
step-InWindow sha256 s (proved number (err e)) v = rollback-InWindow s

-- A publisher that is within the proof window stays within it whatever is called.
pub run-InWindow :
    (sha256 : Bytes → Bytes) (s : PublisherState) (es : List Event)
    → InWindow s
    → InWindow (run sha256 s es)
unfolding run
run-InWindow sha256 s [] v = v
run-InWindow sha256 s (e ∷ es) v =
    run-InWindow sha256 (step sha256 s e) es (step-InWindow sha256 s e v)
