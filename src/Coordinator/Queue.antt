-- ===== src/Coordinator/Queue.antt =====
-- crates/coordinator/src/coordinator.rs: the queue of requests that wait for their chains, and the
-- part of `handle_xt_request` and of `drain_queue` that runs under the lock.
pub mod First
use publisher.Base.{ℕ, zero, suc, Bool, not, Option, none, some, List, [], ◌∷◌, ◌++◌}
use publisher.Base.Tests.{leb, if◌then◌else◌}
use publisher.Base.Lists.{length}
use publisher.Spec.Primitives.{Bytes, Text, ChainId}
use publisher.Proto.Messages.{XtRequest}
use publisher.Coordinator.State.{
  External, PendingEntry, CoordinatorState, has_overlap, max_pending_queue_size,
}
use publisher.Coordinator.Rounds.{prepare_xt}

module _ {ℓ} {A : Type ℓ} where
  -- `iter().position`.
  unfoldable pub position : (A → Bool) → List A → Option ℕ
  position p [] = none
  position p (x ∷ xs) =
      let later = position p xs in
      if p x then some 0 else (elim later [ none ↦ none | some i ↦ some (suc i) ])

  -- `Vec::remove`, with the element; `none` is its panic on an index out of range.
  unfoldable pub remove_at : ℕ → List A → Option (A × List A)
  remove_at i [] = none
  remove_at zero (x ∷ xs) = some (x, xs)
  remove_at (suc i) (x ∷ xs) = elim (remove_at i xs) [
    | none ↦ none
    | some (y, rest) ↦ some (y, x ∷ rest)
  ]

unfoldable pub is_ready : CoordinatorState → PendingEntry → Bool
unfolding has_overlap
is_ready s e = not (has_overlap s e.chains)

unfoldable pub take_at : CoordinatorState → Option ℕ → CoordinatorState × Option PendingEntry
unfolding remove_at
take_at s none = (s, none)
take_at s (some idx) = elim (remove_at idx s.pending_queue) [
  | none ↦ (s, none)
  | some (e, rest) ↦ (record s { pending_queue = rest }, some e)
]

unfoldable pub take_next_ready : CoordinatorState → CoordinatorState × Option PendingEntry
unfolding take_at position is_ready
take_next_ready s = take_at s (position (is_ready s) s.pending_queue)

-- What the locked part of `handle_xt_request` does with a request that spans enough chains.
pub data Submission : Type 0 where
  rejected : Submission
  queued : Submission
  started : Text → Bytes → Submission

module _ (ext : External) where
  unfoldable pub submit :
      CoordinatorState → ℕ → XtRequest → List ChainId → CoordinatorState × Submission
  unfolding has_overlap prepare_xt
  submit s now xt_req chains =
      if has_overlap s chains
      then (if leb max_pending_queue_size (length s.pending_queue) then (s, rejected) else (
        record s {
          pending_queue = s.pending_queue ++ record { xt_request = xt_req; chains = chains } ∷ [];
        },
        queued,
      ))
      else (let (s', xt_id, message) = prepare_xt ext s now xt_req chains in
          (s', started xt_id message))

  -- What a round of `drain_queue` does with the entry that it took.
  unfoldable pub start_taken :
      ℕ → CoordinatorState × Option PendingEntry → CoordinatorState × Option (Text × Bytes)
  unfolding prepare_xt
  start_taken now (s, none) = (s, none)
  start_taken now (s, some e) =
      let (s', xt_id, message) = prepare_xt ext s now e.xt_request e.chains in
      (s', some (xt_id, message))

  -- One round of `drain_queue` under the lock; `none` ends the loop.
  unfoldable pub start_next : CoordinatorState → ℕ → CoordinatorState × Option (Text × Bytes)
  unfolding take_next_ready start_taken
  start_next s now = start_taken now (take_next_ready s)
