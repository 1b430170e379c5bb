-- ===== src/Program/Tasks/Written.antt =====
-- The critical section that writes in a turn of a task.
use publisher.Base.{ℕ, ◌≡◌, refl, true, false, inl, inr, Option, none, some, List, [], ◌∷◌, arith}
use publisher.Base.Tests.{ltb, if◌then◌else◌, Bool-cases}
use publisher.Base.Lists.{length, is_empty}
use publisher.Spec.Primitives.{Text}
use publisher.Proto.Messages.{
  Message, Payload, HandshakeRequest, XtRequest, vote, xt_request, ping, handshake_request,
  mailbox_message, proof,
}
use publisher.Coordinator.State.{External}
use publisher.Coordinator.Requests.{extract_chains}
use publisher.Coordinator.Queue.{Submission, rejected, queued, started, submit}
use publisher.Coordinator.Service.{Coordinator, inc_messages}
use publisher.Coordinator.ChainIds.{parse_chain_id}
use publisher.Coordinator.History.{
  Event, period_began, requested, voted, drained, reaped, proof_received, finalized, proofs_reaped,
  rolled_back, request, run,
}
use publisher.Server.{ProofSubmission}
use publisher.Program.{
  Call, fetched, received, connected, period_ticked, reaper_ticked, submitted, submission_ended,
}
use publisher.Program.Inbound.{registered_sections, register_parsed-run, handshake_sections}
use publisher.Program.Sections.{fetched_sections, fetched-run}
use publisher.Program.Tasks.{
  Stage, serving, proving, draining, expiring, rolling_back, deciding, starting, aborting,
  beginning, announcing, relaying, replying, turn, call_turn, decoded_turn, message_turn,
  payload_turn, submitted_turn, handshake_turn, request_turn, queued_turn, vote_turn,
}

module _ (ext : External) where
  -- The critical section that writes in a turn, if there is one.
  abbrev payload_section : Text → Payload → ℕ → List Event
  payload_section client_id (vote v) now = voted v.instance_id v.chain_id v.vote now ∷ []
  payload_section client_id (xt_request r) now = requested r now ∷ []
  payload_section client_id (handshake_request r) now = handshake_sections ext client_id r
  payload_section client_id other now = []

  abbrev message_section : Text → Option Payload → ℕ → List Event
  message_section client_id none now = []
  message_section client_id (some p) now = payload_section client_id p now

  abbrev decoded_section : Text → Option Message → ℕ → List Event
  decoded_section client_id none now = []
  decoded_section client_id (some m) now = message_section client_id m.payload now

  abbrev call_section : Coordinator → Call → ℕ → List Event
  call_section c (fetched latest) now = fetched_sections ext c.l1_submitter latest
  call_section c (received client_id frame _) now = decoded_section client_id (ext.decode frame) now
  call_section c (connected client_id) now =
      registered_sections ext client_id (parse_chain_id client_id)
  call_section c period_ticked now = period_began ∷ []
  call_section c (reaper_ticked _ _) now = reaped now c.scp_timeout ∷ []
  call_section c (submitted body _) now = []
  call_section c (submission_ended superblock_number success) now =
      if success then finalized superblock_number ∷ [] else []

  abbrev pub turn_section : Coordinator → ℕ → Stage → List Event
  turn_section c now (serving call) = call_section c call now
  turn_section c now (proving n chain_id submission) = proof_received n chain_id submission now ∷ []
  turn_section c now draining = drained now ∷ []
  turn_section c now expiring = proofs_reaped now c.proof_window ∷ []
  turn_section c now rolling_back = rolled_back ∷ []
  turn_section c now other = []

  queued_turn-state : (c : Coordinator) (r : Submission) → (queued_turn c r).0.state ≡ c.state
  queued_turn-state c rejected = refl
  queued_turn-state c queued = refl
  queued_turn-state c (started id message) = refl

  request_turn-run :
      (c : Coordinator) (r : XtRequest) (now : ℕ)
      → (request_turn ext c r now).0.state ≡ run ext c.state (requested r now ∷ [])
  unfolding request_turn run request
  request_turn-run c r now = elim (Bool-cases (ltb (length (extract_chains r)) 2)) [
    | inl few ↦ rw few refl
    | inr enough ↦ rw enough (queued_turn-state _ (submit ext c.state now r (extract_chains r)).1)
  ]

  handshake_turn-run :
      (c : Coordinator) (client_id : Text) (r : HandshakeRequest)
      → (handshake_turn ext c client_id r).0.state
        ≡ run ext c.state (handshake_sections ext client_id r)
  unfolding handshake_turn handshake_sections run
  handshake_turn-run c client_id r = elim (Bool-cases (is_empty r.client_id)) [
    | inl none_given ↦ rw none_given refl
    | inr given ↦ rw given (register_parsed-run ext c client_id (parse_chain_id r.client_id))
  ]

  payload_turn-run :
      (c : Coordinator) (client_id : Text) (p : Payload) (now : ℕ)
      → (payload_turn ext c client_id p now).0.state
        ≡ run ext c.state (payload_section client_id p now)
  unfolding payload_turn run vote_turn
  payload_turn-run c client_id (vote v) now = refl
  payload_turn-run c client_id (xt_request r) now = request_turn-run c r now
  payload_turn-run c client_id (ping p) now = refl
  payload_turn-run c client_id (handshake_request r) now = handshake_turn-run c client_id r
  payload_turn-run c client_id (mailbox_message m) now = refl
  payload_turn-run c client_id (proof p) now = refl
  payload_turn-run c client_id other now = refl

  decoded_turn-run :
      (c : Coordinator) (client_id : Text) (m : Option Message) (now : ℕ)
      → (decoded_turn ext c client_id m now).0.state
        ≡ run ext c.state (decoded_section client_id m now)
  unfolding decoded_turn message_turn run
  decoded_turn-run c client_id none now = refl
  decoded_turn-run c client_id (some m) now = by_payload m.payload
    where
      by_payload :
          (p : Option Payload)
          → (message_turn ext c client_id p now).0.state
            ≡ run ext c.state (message_section client_id p now)
      by_payload none = refl
      by_payload (some p) = payload_turn-run c client_id p now

  pub submitted_turn-state :
      (c : Coordinator) (body : ProofSubmission) → (submitted_turn c body).0.state ≡ c.state
  unfolding submitted_turn
  submitted_turn-state c body = ground arith

  call_turn-run :
      (c : Coordinator) (call : Call) (now : ℕ)
      → (call_turn ext c call now).0.state ≡ run ext c.state (call_section c call now)
  unfolding call_turn run
  call_turn-run c (fetched latest) now = fetched-run ext c latest c.l1_submitter
  call_turn-run c (received client_id frame _) now =
      decoded_turn-run (inc_messages c) client_id (ext.decode frame) now
  call_turn-run c (connected client_id) now =
      register_parsed-run ext c client_id (parse_chain_id client_id)
  call_turn-run c period_ticked now = refl
  call_turn-run c (reaper_ticked _ _) now = refl
  call_turn-run c (submitted body _) now = submitted_turn-state c body
  call_turn-run c (submission_ended n true) now = refl
  call_turn-run c (submission_ended n false) now = refl

  pub turn-run :
      (c : Coordinator) (now : ℕ) (s : Stage)
      → (turn ext c now s).0.state ≡ run ext c.state (turn_section c now s)
  unfolding turn run
  turn-run c now (serving call) = call_turn-run c call now
  turn-run c now (proving n chain_id submission) = refl
  turn-run c now draining = refl
  turn-run c now expiring = refl
  turn-run c now rolling_back = refl
  turn-run c now (deciding d latency message) = refl
  turn-run c now (starting message) = refl
  turn-run c now (aborting message) = refl
  turn-run c now (beginning message) = refl
  turn-run c now (announcing message) = refl
  turn-run c now (relaying client_id message) = refl
  turn-run c now (replying client_id message) = refl
