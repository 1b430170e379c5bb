-- ===== src/Coordinator/Messaging.antt =====
-- crates/coordinator/src/coordinator.rs: the handlers that answer with messages.
pub mod Drain
use publisher.Base.{ℕ, zero, suc, Bool, Option, none, some, List, [], ◌∷◌, ◌++◌, ℕ_discrete}
use publisher.Base.Tests.{ltb, if◌then◌else◌}
use publisher.Base.Lists.{length, is_empty}
use publisher.Base.Maps.{get}
use publisher.Spec.Primitives.{Bytes, Text, ChainId}
use publisher.Proto.Messages
use publisher.Proto.Messages.{XtRequest, MailboxMessage}
use publisher.Coordinator.State.{External, CoordinatorState, envelope}
use publisher.Coordinator.Requests.{extract_chains}
use publisher.Coordinator.Rounds
use publisher.Coordinator.Rounds.{record_vote}
use publisher.Coordinator.Queue.{Submission, rejected, queued, started, submit, start_next}
use publisher.Coordinator.Settlement
use publisher.Coordinator.Settlement.{begin_period, begin_rollback}
use publisher.Coordinator.Service.{
  Coordinator, Effect, broadcast_raw, send_raw, inc_broadcasts, count_started, count_queued,
  count_abort, count_period, count_decision,
}

module _ (ext : External) where
  unfoldable pub advance_period : Coordinator → Coordinator × List Effect
  unfolding begin_period inc_broadcasts
  advance_period c =
      let (s, period_id, superblock_num) = begin_period c.state in
      (
        count_period (inc_broadcasts (record c { state = s })),
        broadcast_raw (
              ext.encode_to_vec (
                envelope (
                  Messages.start_period
                    (record { period_id = period_id; superblock_number = superblock_num }))))
            ∷ [],
      )

  -- What `handle_xt_request` does once the lock is released.
  unfoldable pub announce : Coordinator → Submission → Coordinator × List Effect
  unfolding inc_broadcasts
  announce c rejected = (c, [])
  announce c queued = (count_queued c, [])
  announce c (started xt_id message) =
      (count_started (inc_broadcasts c), broadcast_raw message ∷ [])

  unfoldable pub handle_xt_request : Coordinator → XtRequest → ℕ → Coordinator × List Effect
  unfolding announce extract_chains submit
  handle_xt_request c xt_req now =
      let chains = extract_chains xt_req in
      if ltb (length chains) 2
      then (c, [])
      else (let (s, submission) = submit ext c.state now xt_req chains in
          announce (record c { state = s }) submission)

  -- A round of `drain_queue` after the lock, and the loop that goes on from it.
  unfoldable pub drain_round :
      (Coordinator → Coordinator × List Effect)
      → Coordinator
      → CoordinatorState × Option (Text × Bytes)
      → Coordinator × List Effect
  unfolding inc_broadcasts
  drain_round again c (s, none) = (record c { state = s }, [])
  drain_round again c (s, some (xt_id, message)) =
      let (c', effects) = again (count_started (inc_broadcasts (record c { state = s }))) in
      (c', broadcast_raw message ∷ effects)

  -- The loop of `drain_queue`. Each round takes an entry from the queue, so its length, and one
  -- round to see that nothing is ready, is enough fuel. All rounds read one clock value.
  unfoldable pub drain_rounds : ℕ → Coordinator → ℕ → Coordinator × List Effect
  unfolding start_next drain_round
  drain_rounds zero c now = (c, [])
  drain_rounds (suc fuel) c now =
      drain_round (λ d. drain_rounds fuel d now) c (start_next ext c.state now)

  unfoldable pub drain_queue : Coordinator → ℕ → Coordinator × List Effect
  unfolding drain_rounds
  drain_queue c now = drain_rounds (suc (length c.state.pending_queue)) c now

  -- What `handle_vote` does once the lock is released.
  unfoldable pub publish_decision :
      Coordinator → Option (Bool × ℕ × Bytes) → ℕ → Coordinator × List Effect
  unfolding drain_queue inc_broadcasts count_decision
  publish_decision c none now = (c, [])
  publish_decision c (some (decision, latency, message)) now =
      let (c', effects) = drain_queue (inc_broadcasts (count_decision decision latency c)) now in
      (c', broadcast_raw message ∷ effects)

  -- The sender of a vote is not looked at, so it is no argument.
  unfoldable pub handle_vote : Coordinator → Bytes → ChainId → Bool → ℕ → Coordinator × List Effect
  unfolding publish_decision record_vote
  handle_vote c instance_id_bytes chain_id vote now =
      let (s, result) =
        record_vote ext c.state (ext.hex_encode instance_id_bytes) instance_id_bytes chain_id vote
          now in
      publish_decision (record c { state = s }) result now

  unfoldable pub relay : Coordinator → MailboxMessage → Option Text → Coordinator × List Effect
  unfolding inc_broadcasts
  relay c mailbox none = (c, [])
  relay c mailbox (some client_id) = (
    inc_broadcasts c,
    send_raw client_id (ext.encode_to_vec (envelope (Messages.mailbox_message mailbox))) ∷ [],
  )

  unfoldable pub handle_mailbox_relay : Coordinator → MailboxMessage → Coordinator × List Effect
  unfolding relay
  handle_mailbox_relay c mailbox =
      relay c mailbox (get ℕ_discrete mailbox.destination_chain c.state.chain_to_client)

  unfoldable pub handle_ping : Coordinator → Text → ℕ → Coordinator × List Effect
  handle_ping c client_id timestamp = (
    c,
    send_raw client_id
          (ext.encode_to_vec (envelope (Messages.pong (record { timestamp = timestamp }))))
        ∷ [],
  )

  -- The loop of `reap_timed_out_xts` over the messages.
  unfoldable pub broadcast_aborts : Coordinator → List (Text × Bytes) → Coordinator × List Effect
  unfolding inc_broadcasts
  broadcast_aborts c [] = (c, [])
  broadcast_aborts c ((xt_id, message) ∷ rest) =
      let (c', effects) = broadcast_aborts (inc_broadcasts (count_abort c)) rest in
      (c', broadcast_raw message ∷ effects)

  unfoldable pub reap_timed_out_xts : Coordinator → ℕ → Coordinator × List Effect
  unfolding Rounds.reap_timed_out broadcast_aborts drain_queue
  reap_timed_out_xts c now =
      let (s, timed_out) = Rounds.reap_timed_out ext c.state now c.scp_timeout in
      let (c', aborts) = broadcast_aborts (record c { state = s }) timed_out in
      if is_empty timed_out
      then (c', aborts)
      else (let (c'', starts) = drain_queue c' now in (c'', aborts ++ starts))

  unfoldable pub reap_expired_proofs : Coordinator → ℕ → Coordinator × List Effect
  unfolding Settlement.reap_expired_proofs begin_rollback inc_broadcasts
  reap_expired_proofs c now =
      let (s, expired) = Settlement.reap_expired_proofs c.state now c.proof_window in
      if expired
      then (let (s', message) = begin_rollback s in
          (
            inc_broadcasts (record c { state = s' }),
            broadcast_raw (ext.encode_to_vec (envelope (Messages.rollback message))) ∷ [],
          ))
      else (record c { state = s }, [])
