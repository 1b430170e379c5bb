-- ===== src/Program/Tasks/Steady.antt =====
-- crates/metrics/src/lib.rs and crates/coordinator/src/coordinator.rs: what no turn of a task changes.
use publisher.Base.{ℕ, ◌≡◌, refl, ap, ◌∙◌, Bool, true, false, inl, inr, Option, none, some, arith}
use publisher.Base.Tests.{ltb, Bool-cases}
use publisher.Base.Lists.{length, is_empty}
use publisher.Base.Results.{Result, ok, err}
use publisher.Spec.Primitives.{Text}
use publisher.Proto.Messages.{
  Message, Payload, HandshakeRequest, XtRequest, vote, xt_request, handshake_request,
}
use publisher.Coordinator.State.{External}
use publisher.Coordinator.Requests.{extract_chains}
use publisher.Coordinator.Queue.{Submission, rejected, queued, started, submit}
use publisher.Coordinator.Service.{
  Coordinator, inc_messages, inc_broadcasts, count_abort, count_decision, init_from_l1,
  on_submitted,
}
use publisher.Coordinator.ChainIds.{ParseChainIdError, parse_chain_id}
use publisher.Coordinator.Dispatch.{register_parsed}
use publisher.Server.{ProofSubmission}
use publisher.Program.{
  Call, fetched, received, connected, period_ticked, reaper_ticked, submitted, submission_ended,
}
use publisher.Program.Tasks.{
  Stage, serving, proving, draining, expiring, rolling_back, deciding, starting, aborting,
  beginning, announcing, relaying, replying, turn, call_turn, decoded_turn, message_turn,
  payload_turn, submitted_turn, handshake_turn, request_turn, queued_turn, vote_turn,
}

-- What the gauge shows, if metrics are enabled.
abbrev pub gauge : Coordinator → Option ℕ
gauge c = elim c.metrics [ none ↦ none | some m ↦ some m.connections_active ]

-- The settings, and whether there is a submitter.
abbrev pub settings : Coordinator → ℕ × ℕ × Bool
settings c = (c.scp_timeout, c.proof_window, c.l1_submitter)

abbrev steady : Coordinator → (ℕ × ℕ × Bool) × Option ℕ
steady c = (settings c, gauge c)

inc_messages-steady : (c : Coordinator) → steady (inc_messages c) ≡ steady c
unfolding inc_messages
inc_messages-steady c = ground arith

inc_broadcasts-steady : (c : Coordinator) → steady (inc_broadcasts c) ≡ steady c
unfolding inc_broadcasts
inc_broadcasts-steady c = ground arith

count_decision-steady :
    (d : Bool) (latency : ℕ) (c : Coordinator) → steady (count_decision d latency c) ≡ steady c
unfolding count_decision
count_decision-steady d latency c = ground arith

queued_turn-steady : (c : Coordinator) (r : Submission) → steady (queued_turn c r).0 ≡ steady c
queued_turn-steady c rejected = refl
queued_turn-steady c queued = ground arith
queued_turn-steady c (started id message) = refl

submitted_turn-steady :
    (c : Coordinator) (body : ProofSubmission) → steady (submitted_turn c body).0 ≡ steady c
unfolding submitted_turn
submitted_turn-steady c body = ground arith

init_from_l1-steady :
    (c : Coordinator) (latest : Result Text (Option (ℕ × ℕ)))
    → steady (init_from_l1 c latest) ≡ steady c
unfolding init_from_l1
init_from_l1-steady c latest = ground arith

register_parsed-steady :
    (c : Coordinator) (client_id : Text) (r : Result ParseChainIdError ℕ)
    → steady (register_parsed c client_id r) ≡ steady c
unfolding register_parsed
register_parsed-steady c client_id (ok chain_id) = refl
register_parsed-steady c client_id (err e) = refl

on_submitted-steady : (c : Coordinator) (n : ℕ) (b : Bool) → steady (on_submitted c n b) ≡ steady c
unfolding on_submitted
on_submitted-steady c n true = refl
on_submitted-steady c n false = refl

module _ (ext : External) where
  request_turn-steady :
      (c : Coordinator) (r : XtRequest) (now : ℕ) → steady (request_turn ext c r now).0 ≡ steady c
  unfolding request_turn
  request_turn-steady c r now = elim (Bool-cases (ltb (length (extract_chains r)) 2)) [
    | inl few ↦ rw few refl
    | inr enough ↦ rw enough (queued_turn-steady _ (submit ext c.state now r (extract_chains r)).1)
  ]

  handshake_turn-steady :
      (c : Coordinator) (client_id : Text) (r : HandshakeRequest)
      → steady (handshake_turn ext c client_id r).0 ≡ steady c
  unfolding handshake_turn
  handshake_turn-steady c client_id r = elim (Bool-cases (is_empty r.client_id)) [
    | inl none_given ↦ rw none_given refl
    | inr given ↦ rw given (register_parsed-steady c client_id (parse_chain_id r.client_id))
  ]

  payload_turn-steady :
      (c : Coordinator) (client_id : Text) (p : Payload) (now : ℕ)
      → steady (payload_turn ext c client_id p now).0 ≡ steady c
  unfolding payload_turn vote_turn
  payload_turn-steady c client_id (vote v) now = refl
  payload_turn-steady c client_id (xt_request r) now = request_turn-steady c r now
  payload_turn-steady c client_id (handshake_request r) now = handshake_turn-steady c client_id r
  payload_turn-steady c client_id other now = refl

  message_turn-steady :
      (c : Coordinator) (client_id : Text) (p : Option Payload) (now : ℕ)
      → steady (message_turn ext c client_id p now).0 ≡ steady c
  unfolding message_turn
  message_turn-steady c client_id none now = refl
  message_turn-steady c client_id (some p) now = payload_turn-steady c client_id p now

  decoded_turn-steady :
      (c : Coordinator) (client_id : Text) (m : Option Message) (now : ℕ)
      → steady (decoded_turn ext c client_id m now).0 ≡ steady c
  unfolding decoded_turn
  decoded_turn-steady c client_id none now = refl
  decoded_turn-steady c client_id (some m) now = message_turn-steady c client_id m.payload now

  call_turn-steady :
      (c : Coordinator) (call : Call) (now : ℕ) → steady (call_turn ext c call now).0 ≡ steady c
  unfolding call_turn
  call_turn-steady c (fetched latest) now = init_from_l1-steady c latest
  call_turn-steady c (received client_id frame _) now =
      decoded_turn-steady (inc_messages c) client_id (ext.decode frame) now ∙ inc_messages-steady c
  call_turn-steady c (connected client_id) now =
      register_parsed-steady c client_id (parse_chain_id client_id)
  call_turn-steady c period_ticked now = refl
  call_turn-steady c (reaper_ticked _ _) now = refl
  call_turn-steady c (submitted body _) now = submitted_turn-steady c body
  call_turn-steady c (submission_ended n success) now = on_submitted-steady c n success

  -- No turn of a task touches either.
  turn-steady : (c : Coordinator) (now : ℕ) (s : Stage) → steady (turn ext c now s).0 ≡ steady c
  unfolding turn
  turn-steady c now (serving call) = call_turn-steady c call now
  turn-steady c now (proving n chain_id submission) = refl
  turn-steady c now draining = refl
  turn-steady c now expiring = refl
  turn-steady c now rolling_back = refl
  turn-steady c now (deciding d latency message) =
      inc_broadcasts-steady (count_decision d latency c) ∙ count_decision-steady d latency c
  turn-steady c now (starting message) = ground (arith, inc_broadcasts-steady c)
  turn-steady c now (aborting message) = ground (arith, inc_broadcasts-steady (count_abort c))
  turn-steady c now (beginning message) = ground (arith, inc_broadcasts-steady c)
  turn-steady c now (announcing message) = inc_broadcasts-steady c
  turn-steady c now (relaying client_id message) = inc_broadcasts-steady c
  turn-steady c now (replying client_id message) = refl

  pub turn-gauge : (c : Coordinator) (now : ℕ) (s : Stage) → gauge (turn ext c now s).0 ≡ gauge c
  turn-gauge c now s = ap (λ k. k.1) (turn-steady c now s)

  pub turn-settings :
      (c : Coordinator) (now : ℕ) (s : Stage) → settings (turn ext c now s).0 ≡ settings c
  turn-settings c now s = ap (λ k. k.0) (turn-steady c now s)
