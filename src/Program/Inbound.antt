-- ===== src/Program/Inbound.antt =====
-- The critical sections of a message.
use publisher.Base.{ℕ, ◌≡◌, refl, inl, inr, Option, none, some, List, [], ◌∷◌}
use publisher.Base.Tests.{ltb, if◌then◌else◌, Bool-cases}
use publisher.Base.Lists.{length, is_empty}
use publisher.Base.Results.{Result, ok, err}
use publisher.Spec.Primitives.{Text, ChainId}
use publisher.Proto.Messages
use publisher.Proto.Messages.{
  XtRequest, Payload, HandshakeRequest, vote, xt_request, handshake_request, proof, Message, ping,
  mailbox_message,
}
use publisher.Coordinator.State.{External}
use publisher.Coordinator.Requests.{extract_chains}
use publisher.Coordinator.Queue.{Submission, rejected, queued, started, submit}
use publisher.Coordinator.Service.{Coordinator, chain_for_client}
use publisher.Coordinator.Messaging.{
  announce, handle_xt_request, handle_mailbox_relay, handle_ping, relay,
}
use publisher.Coordinator.ChainIds.{ParseChainIdError, parse_chain_id}
use publisher.Coordinator.Dispatch.{
  register_parsed, proof_data_of, handle_proof, handle_handshake, dispatch_payload,
  dispatch_message, dispatch_decoded,
}
use publisher.Coordinator.History.{Event, registered, requested, proof_received, request, run}
use publisher.Program.Draining.{vote_sections, handle_vote-run}

module _ (ext : External) where
  announce-state : (c : Coordinator) (r : Submission) → (announce ext c r).0.state ≡ c.state
  unfolding announce
  announce-state c rejected = refl
  announce-state c queued = refl
  announce-state c (started id message) = refl

  handle_xt_request-run :
      (c : Coordinator) (req : XtRequest) (now : ℕ)
      → (handle_xt_request ext c req now).0.state ≡ run ext c.state (requested req now ∷ [])
  unfolding handle_xt_request run request
  handle_xt_request-run c req now = elim (Bool-cases (ltb (length (extract_chains req)) 2)) [
    | inl few ↦ rw few refl
    | inr enough ↦ rw enough (announce-state _ (submit ext c.state now req (extract_chains req)).1)
  ]

  abbrev pub registered_sections : Text → Result ParseChainIdError ChainId → List Event
  registered_sections client_id (ok chain_id) = registered client_id chain_id ∷ []
  registered_sections client_id (err e) = []

  pub register_parsed-run :
      (c : Coordinator) (client_id : Text) (parsed : Result ParseChainIdError ChainId)
      → (register_parsed c client_id parsed).state
        ≡ run ext c.state (registered_sections client_id parsed)
  unfolding register_parsed run
  register_parsed-run c client_id (ok chain_id) = refl
  register_parsed-run c client_id (err e) = refl

  unfoldable pub handshake_sections : Text → HandshakeRequest → List Event
  handshake_sections client_id req =
      if is_empty req.client_id
      then []
      else registered_sections client_id (parse_chain_id req.client_id)

  handle_handshake-run :
      (c : Coordinator) (client_id : Text) (req : HandshakeRequest)
      → (handle_handshake ext c client_id req).0.state
        ≡ run ext c.state (handshake_sections client_id req)
  unfolding handle_handshake handshake_sections run
  handle_handshake-run c client_id req = elim (Bool-cases (is_empty req.client_id)) [
    | inl none_given ↦ rw none_given refl
    | inr given ↦ rw given (register_parsed-run c client_id (parse_chain_id req.client_id))
  ]

  abbrev proof_sections : Option ChainId → Messages.Proof → ℕ → List Event
  proof_sections none p now = []
  proof_sections (some chain_id) p now =
      proof_received p.superblock_number chain_id (proof_data_of p) now ∷ []

  handle_proof-run :
      (c : Coordinator) (chain : Option ChainId) (p : Messages.Proof) (now : ℕ)
      → (handle_proof c chain p now).0.state ≡ run ext c.state (proof_sections chain p now)
  unfolding handle_proof run
  handle_proof-run c none p now = refl
  handle_proof-run c (some chain_id) p now = refl

  relay-state :
      (c : Coordinator) (m : Messages.MailboxMessage) (client : Option Text)
      → (relay ext c m client).0.state ≡ c.state
  unfolding relay
  relay-state c m none = refl
  relay-state c m (some client) = refl

  unfoldable pub payload_sections : Coordinator → Text → Payload → ℕ → List Event
  unfolding vote_sections handshake_sections
  payload_sections c client_id (vote v) now =
      vote_sections ext c.state v.instance_id v.chain_id v.vote now
  payload_sections c client_id (xt_request r) now = requested r now ∷ []
  payload_sections c client_id (handshake_request r) now = handshake_sections client_id r
  payload_sections c client_id (proof p) now = proof_sections (chain_for_client c client_id) p now
  payload_sections c client_id other now = []

  dispatch_payload-run :
      (c : Coordinator) (client_id : Text) (p : Payload) (now : ℕ)
      → (dispatch_payload ext c client_id p now).0.state
        ≡ run ext c.state (payload_sections c client_id p now)
  unfolding dispatch_payload payload_sections run handle_ping handle_mailbox_relay
  dispatch_payload-run c client_id (vote v) now =
      handle_vote-run ext c v.instance_id v.chain_id v.vote now
  dispatch_payload-run c client_id (xt_request r) now = handle_xt_request-run c r now
  dispatch_payload-run c client_id (ping p) now = refl
  dispatch_payload-run c client_id (handshake_request r) now = handle_handshake-run c client_id r
  dispatch_payload-run c client_id (mailbox_message m) now = relay-state c m _
  dispatch_payload-run c client_id (proof p) now =
      handle_proof-run c (chain_for_client c client_id) p now
  dispatch_payload-run c client_id other now = refl

  abbrev optional_sections : Coordinator → Text → Option Payload → ℕ → List Event
  optional_sections c client_id none now = []
  optional_sections c client_id (some p) now = payload_sections c client_id p now

  dispatch_message-run :
      (c : Coordinator) (client_id : Text) (p : Option Payload) (now : ℕ)
      → (dispatch_message ext c client_id p now).0.state
        ≡ run ext c.state (optional_sections c client_id p now)
  unfolding dispatch_message run
  dispatch_message-run c client_id none now = refl
  dispatch_message-run c client_id (some p) now = dispatch_payload-run c client_id p now

  abbrev pub decoded_sections : Coordinator → Text → Option Message → ℕ → List Event
  decoded_sections c client_id none now = []
  decoded_sections c client_id (some m) now = optional_sections c client_id m.payload now

  pub dispatch_decoded-run :
      (c : Coordinator) (client_id : Text) (m : Option Message) (now : ℕ)
      → (dispatch_decoded ext c client_id m now).0.state
        ≡ run ext c.state (decoded_sections c client_id m now)
  unfolding dispatch_decoded run
  dispatch_decoded-run c client_id none now = refl
  dispatch_decoded-run c client_id (some m) now = dispatch_message-run c client_id m.payload now
