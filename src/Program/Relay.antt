-- ===== src/Program/Relay.antt =====
-- From a sidecar's connection to the messages that it gets: registry, registration and relay.
use publisher.Base.{ℕ, ◌≡◌, refl, ap, ◌∙◌, some, List, [], ◌∷◌, arith, ℕ_discrete}
use publisher.Base.Maps.{get, get-insert}
use publisher.Base.Results.{ok}
use publisher.Spec.Primitives.{Bytes, Text, text_discrete, ChainId}
use publisher.Proto.Messages.{Message, MailboxMessage, mailbox_message}
use publisher.Coordinator.State.{External, envelope}
use publisher.Coordinator.Registry.{register_chain-client}
use publisher.Coordinator.Service
use publisher.Coordinator.Messaging.{relay, handle_mailbox_relay}
use publisher.Coordinator.ChainIds.{parse_chain_id}
use publisher.Coordinator.Dispatch.{dispatch_payload, dispatch-dispatch_payload, register_parsed}
use publisher.Transport.Framing.{encode}
use publisher.Transport.Connections
use publisher.Transport.Connections.{StableId, connected, send_raw_found}
use publisher.Transport.Session.{inserted}
use publisher.Program
use publisher.Program.{serve, received}
use publisher.Program.Startup.{Node}
use publisher.Program.Node.{act, send, send_all, Happening, acted, called, happen, happen_all}
use publisher.Program.Routing.{Reaches, AllQuiet, happen_all-Reaches, happen_all-codec}

module _ (ext : External) where
  -- A client's connection is in the registry, and then the call that it asks for has run.
  abbrev pub joined : Node → Text → StableId → Node
  joined n client_id conn =
      (happen ext (happen ext n (acted (inserted client_id conn))).0
        (called (Program.connected client_id))).0

  joined-Reaches :
      (n : Node) (client_id : Text) (conn : StableId) (chain : ChainId)
      → parse_chain_id client_id ≡ ok chain
      → Reaches (joined n client_id conn) chain client_id conn
  unfolding happen act serve Program.on_connect Connections.connect register_parsed
      Service.register_chain
  joined-Reaches n client_id conn chain parsed = record {
    routed =
        ap
          (λ p.
            get ℕ_discrete chain (register_parsed n.coordinator client_id p).state.chain_to_client)
          parsed
        ∙ register_chain-client n.coordinator.state client_id chain;
    linked = ground (arith, get-insert text_discrete client_id client_id conn n.registry);
  }

  joined-codec :
      (n : Node) (client_id : Text) (conn : StableId) → (joined n client_id conn).codec ≡ n.codec
  unfolding happen act
  joined-codec n client_id conn = refl

  relay_sent :
      (n : Node) (client_id sender : Text) (conn : StableId) (frame out : Bytes) (now : ℕ)
      (m : Message) (mailbox : MailboxMessage)
      → ext.decode frame ≡ some m
      → m.payload ≡ some (mailbox_message mailbox)
      → Reaches n mailbox.destination_chain client_id conn
      → encode n.codec (ext.encode_to_vec (envelope (mailbox_message mailbox))) ≡ ok out
      → (happen ext n (called (received sender frame now))).1 ≡ (client_id, ok (conn, out)) ∷ []
  unfolding happen serve dispatch_payload handle_mailbox_relay Service.inc_messages relay send_all
      send
  relay_sent n client_id sender conn frame out now m mailbox decoded payload r framed =
      ap (λ q. send_all n.codec n.registry q.1)
        (dispatch-dispatch_payload ext n.coordinator sender frame now m (mailbox_message mailbox)
            decoded payload
          ∙ ap (relay ext (Service.inc_messages n.coordinator) mailbox) r.routed)
      ∙ ap (λ o. (client_id, o) ∷ [])
          (send_raw_found n.codec n.registry client_id conn _ out r.linked framed)

-- A sidecar whose name holds a chain id connects and registers; then, through any connections and
-- calls that neither replace nor end its connection nor register anybody, a mailbox message to the
-- chain, within the frame limit, that any connection brings is sent on to the connection of the
-- sidecar, and nothing else is sent.
pub mailbox_delivered :
    (ext : External) (n : Node) (client_id sender : Text) (conn : StableId) (hs : List Happening)
    (frame out : Bytes) (now : ℕ) (m : Message) (mailbox : MailboxMessage)
    → parse_chain_id client_id ≡ ok mailbox.destination_chain
    → AllQuiet ext client_id conn (joined ext n client_id conn) hs
    → ext.decode frame ≡ some m
    → m.payload ≡ some (mailbox_message mailbox)
    → encode n.codec (ext.encode_to_vec (envelope (mailbox_message mailbox))) ≡ ok out
    → (happen ext
        (happen_all ext (joined ext n client_id conn) hs)
        (called (received sender frame now))).1
      ≡ (client_id, ok (conn, out)) ∷ []
mailbox_delivered ext n client_id sender conn hs frame out now m mailbox parsed quiet decoded
      payload framed =
    let after = happen_all ext (joined ext n client_id conn) hs in
    relay_sent ext after client_id sender conn frame out now m mailbox decoded payload
      (happen_all-Reaches ext (joined ext n client_id conn) mailbox.destination_chain client_id conn
        hs quiet (joined-Reaches ext n client_id conn mailbox.destination_chain parsed))
      (ap (λ codec. encode codec (ext.encode_to_vec (envelope (mailbox_message mailbox))))
          (happen_all-codec ext (joined ext n client_id conn) hs
            ∙ joined-codec ext n client_id conn)
        ∙ framed)
