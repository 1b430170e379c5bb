-- ===== src/Coordinator/Dispatch.antt =====
-- crates/coordinator/src/handlers.rs: the dispatch of an inbound frame.
use publisher.Base.{ℕ, ◌≡◌, ap, ◌∙◌, true, Option, none, some, List, [], ◌∷◌}
use publisher.Base.Tests.{if◌then◌else◌}
use publisher.Base.Lists.{is_empty}
use publisher.Base.Results.{Result, ok, err}
use publisher.Spec.Primitives.{Bytes, Text, ChainId}
use publisher.Proto.Messages
use publisher.Proto.Messages.{
  HandshakeRequest, Message, Payload, handshake_request, ping, xt_request, vote, mailbox_message,
  proof,
}
use publisher.Coordinator.ProofTypes.{ProofData, default_aggregation_outputs, default_mailbox_info}
use publisher.Coordinator.State.{External, envelope}
use publisher.Coordinator.Service.{
  Coordinator, Effect, send_raw, inc_messages, register_chain, chain_for_client, receive_proof,
}
use publisher.Coordinator.Messaging.{
  handle_vote, handle_xt_request, handle_ping, handle_mailbox_relay,
}
use publisher.Coordinator.ChainIds.{ParseChainIdError, parse_chain_id}

unfoldable pub register_parsed : Coordinator → Text → Result ParseChainIdError ChainId → Coordinator
unfolding register_chain
register_parsed c client_id (ok chain_id) = register_chain c client_id chain_id
register_parsed c client_id (err e) = c

-- The minimal payload that a `Proof` message becomes.
unfoldable pub proof_data_of : Messages.Proof → ProofData
proof_data_of p = record {
  aggregation_outputs = default_aggregation_outputs;
  compressed_proof = p.proof_data;
  agg_vkey_hash = 0;
  mailbox_info = default_mailbox_info;
}

unfoldable pub handle_proof :
    Coordinator → Option ChainId → Messages.Proof → ℕ → Coordinator × List Effect
unfolding proof_data_of receive_proof
handle_proof c none p now = (c, [])
handle_proof c (some chain_id) p now =
    receive_proof c p.superblock_number chain_id (proof_data_of p) now

module _ (ext : External) where
  unfoldable pub handle_handshake :
      Coordinator → Text → HandshakeRequest → Coordinator × List Effect
  unfolding register_parsed parse_chain_id
  handle_handshake c client_id req =
      let registered =
        if is_empty req.client_id
        then c
        else register_parsed c client_id (parse_chain_id req.client_id) in
      (
        registered,
        send_raw client_id (
              ext.encode_to_vec (
                envelope (
                  Messages.handshake_response
                    (record { accepted = true; error = []; session_id = client_id }))))
            ∷ [],
      )

  unfoldable pub dispatch_payload : Coordinator → Text → Payload → ℕ → Coordinator × List Effect
  unfolding handle_vote handle_xt_request handle_ping handle_handshake handle_mailbox_relay
      handle_proof chain_for_client
  dispatch_payload c client_id (vote v) now = handle_vote ext c v.instance_id v.chain_id v.vote now
  dispatch_payload c client_id (xt_request r) now = handle_xt_request ext c r now
  dispatch_payload c client_id (ping p) now = handle_ping ext c client_id p.timestamp
  dispatch_payload c client_id (handshake_request r) now = handle_handshake c client_id r
  dispatch_payload c client_id (mailbox_message m) now = handle_mailbox_relay ext c m
  dispatch_payload c client_id (proof p) now = handle_proof c (chain_for_client c client_id) p now
  dispatch_payload c client_id other now = (c, [])

  -- The `let … else` on the payload.
  unfoldable pub dispatch_message :
      Coordinator → Text → Option Payload → ℕ → Coordinator × List Effect
  unfolding dispatch_payload
  dispatch_message c client_id none now = (c, [])
  dispatch_message c client_id (some payload) now = dispatch_payload c client_id payload now

  -- The `match` on what was decoded.
  unfoldable pub dispatch_decoded :
      Coordinator → Text → Option Message → ℕ → Coordinator × List Effect
  unfolding dispatch_message
  dispatch_decoded c client_id none now = (c, [])
  dispatch_decoded c client_id (some msg) now = dispatch_message c client_id msg.payload now

  unfoldable pub dispatch : Coordinator → Text → Bytes → ℕ → Coordinator × List Effect
  unfolding dispatch_decoded inc_messages
  dispatch c client_id frame now =
      dispatch_decoded (inc_messages c) client_id (ext.decode frame) now

-- A frame that decodes to a message with a payload is counted, and the payload is dispatched.
pub dispatch-dispatch_payload :
    (ext : External) (c : Coordinator) (client_id : Text) (frame : Bytes) (now : ℕ) (m : Message)
    (p : Payload)
    → ext.decode frame ≡ some m
    → m.payload ≡ some p
    → dispatch ext c client_id frame now ≡ dispatch_payload ext (inc_messages c) client_id p now
unfolding dispatch dispatch_decoded dispatch_message
dispatch-dispatch_payload ext c client_id frame now m p decoded payload =
    ap (λ d. dispatch_decoded ext (inc_messages c) client_id d now) decoded
    ∙ ap (λ q. dispatch_message ext (inc_messages c) client_id q now) payload
