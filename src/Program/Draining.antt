-- ===== src/Program/Draining.antt =====
-- The critical sections of votes, of timeouts and of the draining of the queue.
use publisher.Base.{
  ℕ, zero, suc, ◌≡◌, refl, ap, ◌∙◌, Bool, inl, inr, Option, none, some, List, [], ◌∷◌, ◌++◌,
}
use publisher.Base.Tests.{if◌then◌else◌, Bool-cases}
use publisher.Base.Lists.{length, is_empty}
use publisher.Spec.Primitives.{Bytes, Text, ChainId}
use publisher.Coordinator.State.{External, CoordinatorState}
use publisher.Coordinator.Rounds
use publisher.Coordinator.Rounds.{record_vote}
use publisher.Coordinator.Queue.{start_next}
use publisher.Coordinator.Settlement
use publisher.Coordinator.Service.{Coordinator, Effect, inc_broadcasts, count_started, count_abort}
use publisher.Coordinator.Messaging.{
  drain_round, drain_rounds, drain_queue, publish_decision, handle_vote, broadcast_aborts,
  reap_timed_out_xts, reap_expired_proofs,
}
use publisher.Coordinator.History.{Event, voted, drained, reaped, proofs_reaped, rolled_back, run}

module _ (ext : External) where
  -- The rounds that `drain_queue` makes.
  abbrev after_round :
      (CoordinatorState → List Event) → CoordinatorState × Option (Text × Bytes) → List Event
  after_round again (s, none) = []
  after_round again (s, some message) = again s

  unfoldable drain_sections : ℕ → CoordinatorState → ℕ → List Event
  unfolding start_next
  drain_sections zero s now = []
  drain_sections (suc fuel) s now =
      drained now ∷ after_round (λ t. drain_sections fuel t now) (start_next ext s now)

  drain_round-run :
      (now fuel : ℕ)
      → ((d : Coordinator)
          → (drain_rounds ext fuel d now).0.state
            ≡ run ext d.state (drain_sections fuel d.state now))
      → (c : Coordinator) (r : CoordinatorState × Option (Text × Bytes))
      → (drain_round ext (λ d. drain_rounds ext fuel d now) c r).0.state
        ≡ run ext r.0 (after_round (λ t. drain_sections fuel t now) r)
  unfolding drain_round run
  drain_round-run now fuel again c (s, none) = refl
  drain_round-run now fuel again c (s, some message) =
      again (count_started (inc_broadcasts (record c { state = s })))

  drain_rounds-run :
      (now fuel : ℕ) (c : Coordinator)
      → (drain_rounds ext fuel c now).0.state ≡ run ext c.state (drain_sections fuel c.state now)
  unfolding drain_rounds drain_sections run
  drain_rounds-run now zero c = refl
  drain_rounds-run now (suc fuel) c =
      drain_round-run now fuel (drain_rounds-run now fuel) c (start_next ext c.state now)

  unfoldable pub drain_queue_sections : CoordinatorState → ℕ → List Event
  unfolding drain_sections
  drain_queue_sections s now = drain_sections (suc (length s.pending_queue)) s now

  drain_queue-run :
      (c : Coordinator) (now : ℕ)
      → (drain_queue ext c now).0.state ≡ run ext c.state (drain_queue_sections c.state now)
  unfolding drain_queue drain_queue_sections
  drain_queue-run c now = drain_rounds-run now (suc (length c.state.pending_queue)) c

  -- A vote, and the draining of the queue if it decides.
  abbrev after_vote : CoordinatorState × Option (Bool × ℕ × Bytes) → ℕ → List Event
  after_vote (s, none) now = []
  after_vote (s, some decided) now = drain_queue_sections s now

  unfoldable pub vote_sections : CoordinatorState → Bytes → ChainId → Bool → ℕ → List Event
  unfolding record_vote
  vote_sections s bytes chain_id b now =
      voted bytes chain_id b now
      ∷ after_vote (record_vote ext s (ext.hex_encode bytes) bytes chain_id b now) now

  publish_decision-run :
      (c : Coordinator) (r : CoordinatorState × Option (Bool × ℕ × Bytes)) (now : ℕ)
      → (publish_decision ext (record c { state = r.0 }) r.1 now).0.state
        ≡ run ext r.0 (after_vote r now)
  unfolding publish_decision run
  publish_decision-run c (s, none) now = refl
  publish_decision-run c (s, some (d, latency, message)) now = drain_queue-run _ now

  pub handle_vote-run :
      (c : Coordinator) (bytes : Bytes) (chain_id : ChainId) (b : Bool) (now : ℕ)
      → (handle_vote ext c bytes chain_id b now).0.state
        ≡ run ext c.state (vote_sections c.state bytes chain_id b now)
  unfolding handle_vote vote_sections run
  handle_vote-run c bytes chain_id b now =
      publish_decision-run c (record_vote ext c.state (ext.hex_encode bytes) bytes chain_id b now)
        now

  broadcast_aborts-state :
      (c : Coordinator) (messages : List (Text × Bytes))
      → (broadcast_aborts ext c messages).0.state ≡ c.state
  unfolding broadcast_aborts
  broadcast_aborts-state c [] = refl
  broadcast_aborts-state c ((id, m) ∷ rest) =
      broadcast_aborts-state (inc_broadcasts (count_abort c)) rest

  -- The timeouts, and the draining of the queue if there are any.
  unfoldable pub reaped_sections : Coordinator → ℕ → List Event
  unfolding drain_queue_sections
  reaped_sections c now =
      let (s, timed_out) = Rounds.reap_timed_out ext c.state now c.scp_timeout in
      reaped now c.scp_timeout ∷ (if is_empty timed_out then [] else drain_queue_sections s now)

  -- What `reap_timed_out_xts` does once the lock is released.
  abbrev pub after_reap :
      Coordinator → CoordinatorState × List (Text × Bytes) → ℕ → Coordinator × List Effect
  after_reap c (s, timed_out) now =
      let (c', aborts) = broadcast_aborts ext (record c { state = s }) timed_out in
      if is_empty timed_out
      then (c', aborts)
      else (let (c'', starts) = drain_queue ext c' now in (c'', aborts ++ starts))

  after_reap-run :
      (c : Coordinator) (s : CoordinatorState) (timed_out : List (Text × Bytes)) (now : ℕ)
      → (after_reap c (s, timed_out) now).0.state
        ≡ run ext s (if is_empty timed_out then [] else drain_queue_sections s now)
  unfolding run
  after_reap-run c s [] now = broadcast_aborts-state (record c { state = s }) []
  after_reap-run c s (m ∷ ms) now =
      drain_queue-run (broadcast_aborts ext (record c { state = s }) (m ∷ ms)).0 now
      ∙ ap (λ t. run ext t (drain_queue_sections t now))
          (broadcast_aborts-state (record c { state = s }) (m ∷ ms))

  pub reap_timed_out_xts-run :
      (c : Coordinator) (now : ℕ)
      → (reap_timed_out_xts ext c now).0.state ≡ run ext c.state (reaped_sections c now)
  unfolding reap_timed_out_xts reaped_sections run
  reap_timed_out_xts-run c now =
      let (s, timed_out) = Rounds.reap_timed_out ext c.state now c.scp_timeout in
      after_reap-run c s timed_out now

  unfoldable pub expired_sections : Coordinator → ℕ → List Event
  expired_sections c now =
      proofs_reaped now c.proof_window
      ∷ (if (Settlement.reap_expired_proofs c.state now c.proof_window).1
          then rolled_back ∷ []
          else [])

  pub reap_expired_proofs-run :
      (c : Coordinator) (now : ℕ)
      → (reap_expired_proofs ext c now).0.state ≡ run ext c.state (expired_sections c now)
  unfolding reap_expired_proofs expired_sections run
  reap_expired_proofs-run c now =
      elim (Bool-cases (Settlement.reap_expired_proofs c.state now c.proof_window).1) [
        | inl expired ↦ rw expired refl
        | inr in_time ↦ rw in_time refl
      ]
