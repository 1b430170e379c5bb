-- ===== src/Program/Routing.antt =====
-- What keeps a chain's messages on the way to the sidecar that registered for it.
use publisher.Base.{◌≡◌, ◌≢◌, refl, ap, ◌∙◌, some, List, [], ◌∷◌, ◌⊎◌, arith, ℕ_discrete}
use publisher.Base.Lists.{All}
use publisher.Base.Maps.{get}
use publisher.Spec.Primitives.{Text, text_discrete, ChainId}
use publisher.Coordinator.State.{External, CoordinatorState}
use publisher.Coordinator.Rounds.{expired_ids}
use publisher.Coordinator.History.{
  Event, registered, initialized, period_began, requested, voted, drained, reaped, proof_received,
  finalized, proofs_reaped, rolled_back, step, run,
}
use publisher.Coordinator.History.Frame.{start_next-Framed, reap_each-Framed}
use publisher.Coordinator.Service.{Coordinator}
use publisher.Transport.Connections
use publisher.Transport.Connections.{StableId, connected, disconnected, step-keeps}
use publisher.Transport.Session.{Action, inserted, on_connect, on_message, removed, on_disconnect}
use publisher.Program.{Call, serve}
use publisher.Program.Sections.{sections, serve-run}
use publisher.Program.Startup.{Node}
use publisher.Program.Node.{act, Happening, acted, called, happen, happen_all}

abbrev IsRegistration : Event → Type 0
IsRegistration (registered client_id chain_id) = Unit
IsRegistration e = ⊥

-- Only a registration changes where a chain's messages go.
step-chain_to_client :
    (ext : External) (s : CoordinatorState) (e : Event)
    → ¬ IsRegistration e
    → (step ext s e).chain_to_client ≡ s.chain_to_client
unfolding step
step-chain_to_client ext s (registered client_id chain_id) n = absurd (n tt)
step-chain_to_client ext s (initialized latest) n = ground arith
step-chain_to_client ext s period_began n = refl
step-chain_to_client ext s (requested req now) n = ground arith
step-chain_to_client ext s (voted bytes c b now) n = ground arith
step-chain_to_client ext s (drained now) n = (start_next-Framed ext s now).clients
step-chain_to_client ext s (reaped now timeout) n =
    (reap_each-Framed ext s (expired_ids s.active_xts now timeout)).clients
step-chain_to_client ext s (proof_received number chain proof now) n = ground arith
step-chain_to_client ext s (finalized number) n = refl
step-chain_to_client ext s (proofs_reaped now window) n = ground arith
step-chain_to_client ext s rolled_back n = refl

run-chain_to_client :
    (ext : External) (s : CoordinatorState) (es : List Event)
    → All (λ e. ¬ IsRegistration e) es
    → (run ext s es).chain_to_client ≡ s.chain_to_client
unfolding run
run-chain_to_client ext s [] q = refl
run-chain_to_client ext s (e ∷ es) q =
    run-chain_to_client ext (step ext s e) es q.1 ∙ step-chain_to_client ext s e q.0

-- The client's connection is the one that the registry has, and the chain's messages go to it.
pub record Reaches (n : Node) (chain : ChainId) (client_id : Text) (conn : StableId) : Type 0 where
  pub routed : get ℕ_discrete chain n.coordinator.state.chain_to_client ≡ some client_id
  pub linked : get text_discrete client_id n.registry ≡ some conn

-- The action neither replaces nor ends the client's connection.
abbrev IsAway : Text → StableId → Action → Type 0
IsAway client_id conn (inserted other c) = other ≢ client_id
IsAway client_id conn (removed other c) = (other ≢ client_id) ⊎ (c ≢ conn)
IsAway client_id conn a = Unit

module _ (ext : External) where
  -- No connection of the client begins, the one that it has does not end, and nobody registers.
  abbrev IsQuiet : Text → StableId → Node → Happening → Type 0
  IsQuiet client_id conn n (acted a) = IsAway client_id conn a
  IsQuiet client_id conn n (called call) =
      All (λ e. ¬ IsRegistration e) (sections ext n.coordinator call)

  abbrev pub AllQuiet : Text → StableId → Node → List Happening → Type 0
  AllQuiet client_id conn n [] = Unit
  AllQuiet client_id conn n (h ∷ hs) =
      IsQuiet client_id conn n h × AllQuiet client_id conn (happen ext n h).0 hs

  act-Reaches :
      (n : Node) (chain : ChainId) (client_id : Text) (conn : StableId) (a : Action)
      → IsAway client_id conn a
      → Reaches n chain client_id conn
      → Reaches (act n a) chain client_id conn
  unfolding act Connections.step
  act-Reaches n chain client_id conn (inserted other c) q r = record {
    routed = r.routed;
    linked = step-keeps n.registry client_id conn (connected other c) r.linked q;
  }
  act-Reaches n chain client_id conn (removed other c) q r = record {
    routed = r.routed;
    linked = step-keeps n.registry client_id conn (disconnected other c) r.linked q;
  }
  act-Reaches n chain client_id conn (on_connect other) q r = record {
    routed = r.routed;
    linked = r.linked;
  }
  act-Reaches n chain client_id conn (on_message other payload) q r = r
  act-Reaches n chain client_id conn (on_disconnect other) q r = record {
    routed = r.routed;
    linked = r.linked;
  }

  serve-clients :
      (c : Coordinator) (call : Call)
      → All (λ e. ¬ IsRegistration e) (sections ext c call)
      → (serve ext c call).0.state.chain_to_client ≡ c.state.chain_to_client
  serve-clients c call q =
      ap (λ s. s.chain_to_client) (serve-run ext c call)
      ∙ run-chain_to_client ext c.state (sections ext c call) q

  happen-Reaches :
      (n : Node) (chain : ChainId) (client_id : Text) (conn : StableId) (h : Happening)
      → IsQuiet client_id conn n h
      → Reaches n chain client_id conn
      → Reaches (happen ext n h).0 chain client_id conn
  unfolding happen
  happen-Reaches n chain client_id conn (acted a) q r = act-Reaches n chain client_id conn a q r
  happen-Reaches n chain client_id conn (called call) q r = record {
    routed = ap (get ℕ_discrete chain) (serve-clients n.coordinator call q) ∙ r.routed;
    linked = r.linked;
  }

  pub happen_all-Reaches :
      (n : Node) (chain : ChainId) (client_id : Text) (conn : StableId) (hs : List Happening)
      → AllQuiet client_id conn n hs
      → Reaches n chain client_id conn
      → Reaches (happen_all ext n hs) chain client_id conn
  unfolding happen_all
  happen_all-Reaches n chain client_id conn [] q r = r
  happen_all-Reaches n chain client_id conn (h ∷ hs) q r =
      happen_all-Reaches (happen ext n h).0 chain client_id conn hs q.1
        (happen-Reaches n chain client_id conn h q.0 r)

  act-codec : (n : Node) (a : Action) → (act n a).codec ≡ n.codec
  unfolding act
  act-codec n (inserted client_id conn) = refl
  act-codec n (on_connect client_id) = refl
  act-codec n (on_message client_id payload) = refl
  act-codec n (removed client_id conn) = refl
  act-codec n (on_disconnect client_id) = refl

  happen-codec : (n : Node) (h : Happening) → (happen ext n h).0.codec ≡ n.codec
  unfolding happen
  happen-codec n (acted a) = act-codec n a
  happen-codec n (called call) = refl

  pub happen_all-codec : (n : Node) (hs : List Happening) → (happen_all ext n hs).codec ≡ n.codec
  unfolding happen_all
  happen_all-codec n [] = refl
  happen_all-codec n (h ∷ hs) = happen_all-codec (happen ext n h).0 hs ∙ happen-codec n h
