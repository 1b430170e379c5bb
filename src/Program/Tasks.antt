-- ===== src/Program/Tasks.antt =====
-- The tasks that bin/publisher/src/main.rs and crates/coordinator spawn, as they run: a task goes from
-- one critical section or message to the next, and any other task may come in between.
pub mod Pool
pub mod Written
pub mod Histories
pub mod Waiting
pub mod Woken
pub mod Waking
pub mod Overtaking
pub mod Pairs
pub mod Sessions
pub mod Steady
pub mod Configured
pub mod Counted
use publisher.Base.{ℕ, Bool, true, not, Option, none, some, List, [], ◌∷◌, ◌++◌, ℕ_discrete}
use publisher.Base.Tests.{ltb, ◌==◌, if◌then◌else◌}
use publisher.Base.Lists.{length, is_empty}
use publisher.Base.Maps.{get}
use publisher.Spec.Primitives.{Bytes, Text, ChainId}
use publisher.Proto.Messages
use publisher.Proto.Messages.{
  Message, Payload, HandshakeRequest, MailboxMessage, XtRequest, Vote, vote, xt_request, ping,
  handshake_request, mailbox_message, proof,
}
use publisher.Coordinator.ProofTypes.{ProofData}
use publisher.Coordinator.State.{External, envelope}
use publisher.Coordinator.Requests.{extract_chains}
use publisher.Coordinator.Rounds.{record_vote, reap_timed_out}
use publisher.Coordinator.Queue.{Submission, rejected, queued, started, submit, start_next}
use publisher.Coordinator.Settlement.{
  begin_period, begin_rollback, collect_proof, reap_expired_proofs,
}
use publisher.Coordinator.Service.{
  Coordinator, Effect, broadcast_raw, send_raw, inc_messages, inc_broadcasts, count_started,
  count_queued, count_abort, count_period, count_decision, init_from_l1, on_submitted, settle,
  is_chain_registered, chain_for_client,
}
use publisher.Coordinator.ChainIds.{parse_chain_id}
use publisher.Coordinator.Dispatch.{register_parsed, proof_data_of}
use publisher.Server.{ProofSubmission, submitted_data}
use publisher.Program.{
  Call, fetched, received, connected, period_ticked, reaper_ticked, submitted, submission_ended,
  on_connect,
}

-- What a task is at: a call that has not begun, the lock of `receive_proof`, of a round of
-- `drain_queue`, or of a part of `reap_expired_proofs`, and the messages that it is to send.
pub data Stage : Type 0 where
  serving : Call → Stage
  proving : ℕ → ChainId → ProofData → Stage
  draining : Stage
  expiring : Stage
  rolling_back : Stage
  deciding : Bool → ℕ → Bytes → Stage
  starting : Bytes → Stage
  aborting : Bytes → Stage
  beginning : Bytes → Stage
  announcing : Bytes → Stage
  relaying : Text → Bytes → Stage
  replying : Text → Bytes → Stage

-- The coordinator, what is sent, and the stages that come before the rest of the task.
abbrev pub Turn : Type 0
Turn = Coordinator × List Effect × List Stage

abbrev pub decided_stages : Option (Bool × ℕ × Bytes) → List Stage
decided_stages none = []
decided_stages (some (decision, latency, message)) =
    deciding decision latency message ∷ draining ∷ []

abbrev pub abort_stages : List (Text × Bytes) → List Stage
abort_stages [] = []
abort_stages ((xt_id, message) ∷ rest) = aborting message ∷ abort_stages rest

abbrev pub reaped_stages : List (Text × Bytes) → List Stage
reaped_stages timed_out =
    abort_stages timed_out ++ ((if is_empty timed_out then [] else draining ∷ []) ++ expiring ∷ [])

abbrev pub drained_stages : Option (Text × Bytes) → List Stage
drained_stages none = []
drained_stages (some (xt_id, message)) = starting message ∷ draining ∷ []

abbrev pub queued_turn : Coordinator → Submission → Turn
queued_turn c rejected = (c, [], [])
queued_turn c queued = (count_queued c, [], [])
queued_turn c (started xt_id message) = (c, [], starting message ∷ [])

abbrev pub proof_stages : Option ChainId → Messages.Proof → List Stage
proof_stages none p = []
proof_stages (some chain_id) p = proving p.superblock_number chain_id (proof_data_of p) ∷ []

-- `handle_submit_proof` up to its second lock.
unfoldable pub submitted_turn : Coordinator → ProofSubmission → Turn
unfolding submitted_data is_chain_registered
submitted_turn c body =
    if body.aggregation_outputs.l1_head == 0
    then (c, [], [])
    else if not (is_chain_registered c body.chain_id)
    then (c, [], [])
    else (c, [], proving body.superblock_number body.chain_id (submitted_data body) ∷ [])

module _ (ext : External) where
  abbrev pub relay_stages : MailboxMessage → Option Text → List Stage
  relay_stages mailbox none = []
  relay_stages mailbox (some client_id) =
      relaying client_id (ext.encode_to_vec (envelope (mailbox_message mailbox))) ∷ []

  unfoldable pub vote_turn : Coordinator → Vote → ℕ → Turn
  unfolding record_vote
  vote_turn c v now =
      let (s, result) =
        record_vote ext c.state (ext.hex_encode v.instance_id) v.instance_id v.chain_id v.vote
          now in
      (record c { state = s }, [], decided_stages result)

  unfoldable pub request_turn : Coordinator → XtRequest → ℕ → Turn
  unfolding extract_chains submit
  request_turn c xt_req now =
      let chains = extract_chains xt_req in
      if ltb (length chains) 2
      then (c, [], [])
      else (let (s, submission) = submit ext c.state now xt_req chains in
          queued_turn (record c { state = s }) submission)

  unfoldable pub handshake_turn : Coordinator → Text → HandshakeRequest → Turn
  unfolding register_parsed parse_chain_id
  handshake_turn c client_id req = (
    if is_empty req.client_id
        then c
        else register_parsed c client_id (parse_chain_id req.client_id),
    [],
    replying client_id (
          ext.encode_to_vec (
            envelope (
              Messages.handshake_response
                (record { accepted = true; error = []; session_id = client_id }))))
        ∷ [],
  )

  -- `dispatch` up to its first lock, with what it does under it.
  unfoldable pub payload_turn : Coordinator → Text → Payload → ℕ → Turn
  unfolding vote_turn request_turn handshake_turn chain_for_client
  payload_turn c client_id (vote v) now = vote_turn c v now
  payload_turn c client_id (xt_request r) now = request_turn c r now
  payload_turn c client_id (ping p) now = (
    c,
    [],
    replying client_id
          (ext.encode_to_vec (envelope (Messages.pong (record { timestamp = p.timestamp }))))
        ∷ [],
  )
  payload_turn c client_id (handshake_request r) now = handshake_turn c client_id r
  payload_turn c client_id (mailbox_message m) now =
      (c, [], relay_stages m (get ℕ_discrete m.destination_chain c.state.chain_to_client))
  payload_turn c client_id (proof p) now = (c, [], proof_stages (chain_for_client c client_id) p)
  payload_turn c client_id other now = (c, [], [])

  unfoldable pub message_turn : Coordinator → Text → Option Payload → ℕ → Turn
  unfolding payload_turn
  message_turn c client_id none now = (c, [], [])
  message_turn c client_id (some payload) now = payload_turn c client_id payload now

  unfoldable pub decoded_turn : Coordinator → Text → Option Message → ℕ → Turn
  unfolding message_turn
  decoded_turn c client_id none now = (c, [], [])
  decoded_turn c client_id (some msg) now = message_turn c client_id msg.payload now

  -- The first turn of a call; it reads the clock now.
  unfoldable pub call_turn : Coordinator → Call → ℕ → Turn
  unfolding init_from_l1 decoded_turn inc_messages on_connect begin_period reap_timed_out
      submitted_turn on_submitted
  call_turn c (fetched latest) now = (init_from_l1 c latest, [], [])
  call_turn c (received client_id frame _) now =
      decoded_turn (inc_messages c) client_id (ext.decode frame) now
  call_turn c (connected client_id) now = (on_connect c client_id, [], [])
  call_turn c period_ticked now =
      let (s, period_id, superblock_num) = begin_period c.state in
      (
        record c { state = s },
        [],
        beginning (
              ext.encode_to_vec (
                envelope (
                  Messages.start_period
                    (record { period_id = period_id; superblock_number = superblock_num }))))
            ∷ [],
      )
  call_turn c (reaper_ticked _ _) now =
      let (s, timed_out) = reap_timed_out ext c.state now c.scp_timeout in
      (record c { state = s }, [], reaped_stages timed_out)
  call_turn c (submitted body _) now = submitted_turn c body
  call_turn c (submission_ended superblock_number success) now =
      (on_submitted c superblock_number success, [], [])

  unfoldable pub turn : Coordinator → ℕ → Stage → Turn
  unfolding call_turn collect_proof settle start_next reap_expired_proofs begin_rollback
      inc_broadcasts count_decision
  turn c now (serving call) = call_turn c call now
  turn c now (proving superblock_number chain_id submission) =
      let (s, ready_proofs) = collect_proof c.state superblock_number chain_id submission now in
      (record c { state = s }, settle c ready_proofs, [])
  turn c now draining =
      let (s, next) = start_next ext c.state now in
      (record c { state = s }, [], drained_stages next)
  turn c now expiring =
      let (s, expired) = reap_expired_proofs c.state now c.proof_window in
      (record c { state = s }, [], if expired then rolling_back ∷ [] else [])
  turn c now rolling_back =
      let (s, message) = begin_rollback c.state in
      (
        record c { state = s },
        [],
        announcing (ext.encode_to_vec (envelope (Messages.rollback message))) ∷ [],
      )
  turn c now (deciding decision latency message) =
      (inc_broadcasts (count_decision decision latency c), broadcast_raw message ∷ [], [])
  turn c now (starting message) = (count_started (inc_broadcasts c), broadcast_raw message ∷ [], [])
  turn c now (aborting message) = (inc_broadcasts (count_abort c), broadcast_raw message ∷ [], [])
  turn c now (beginning message) = (count_period (inc_broadcasts c), broadcast_raw message ∷ [], [])
  turn c now (announcing message) = (inc_broadcasts c, broadcast_raw message ∷ [], [])
  turn c now (relaying client_id message) = (inc_broadcasts c, send_raw client_id message ∷ [], [])
  turn c now (replying client_id message) = (c, send_raw client_id message ∷ [], [])
