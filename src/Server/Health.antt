-- ===== src/Server/Health.antt =====
-- crates/server/src: router.rs, state.rs and the handlers health.rs and metrics.rs: the routes, readiness and metrics. The
-- layers for timeouts, tracing and CORS, and the JSON of the answers, are other crates'.
use publisher.Base.{ℕ, ◌≡◌, ◌⊎◌, ◌≤◌, refl, inl, inr, Option, none, some, List, [], ◌∷◌, arith}
use publisher.Base.Tests.{◌==◌, if◌then◌else◌, Bool-cases}
use publisher.Spec.Primitives.{Text, codes}
use publisher.Metrics.{Registry}
use publisher.Coordinator.Service.{Coordinator, Stats, stats}
use publisher.Transport.Connections.{ConnectionRegistry, connection_count}

pub data Method : Type 0 where
  get_method : Method
  post_method : Method

pub data Handler : Type 0 where
  health : Handler
  ready : Handler
  stats_handler : Handler
  metrics : Handler
  submit_proof : Handler

abbrev pub routes : List (Text × Method × Handler)
routes =
    (codes "/health", get_method, health)
    ∷ (codes "/ready", get_method, ready)
    ∷ (codes "/stats", get_method, stats_handler)
    ∷ (codes "/metrics", get_method, metrics)
    ∷ (codes "/v1/proofs/op-succinct", post_method, submit_proof)
    ∷ []

pub record AppState : Type 0 where
  pub coordinator : Coordinator
  pub connections : ConnectionRegistry
  pub registry : Option Registry

unfoldable pub new : Coordinator → ConnectionRegistry → AppState
new c reg = record { coordinator = c; connections = reg; registry = none }

unfoldable pub with_registry : AppState → Registry → AppState
with_registry state registry = record state { registry = some registry }

-- The answers, with what stands in their bodies. `timestamp` is in seconds.
pub data Answer : Type 0 where
  healthy : ℕ → Answer
  ready_with : ℕ → Answer
  no_connections : Answer
  statistics : Stats → Answer
  not_enabled : Answer
  failed_to_encode : Answer
  encoded : Text → Answer

unfoldable pub handle_health : ℕ → Answer
handle_health timestamp = healthy timestamp

unfoldable pub handle_ready : AppState → Answer
unfolding connection_count
handle_ready state =
    let connections = connection_count state.connections in
    if connections == 0 then no_connections else ready_with connections

unfoldable pub handle_stats : AppState → Answer
unfolding stats
handle_stats state = statistics (stats state.coordinator)

abbrev body_of : Option Text → Answer
body_of none = failed_to_encode
body_of (some body) = encoded body

-- `encode` is prometheus_client's; `none` is its error.
unfoldable pub encode_registry : (Registry → Option Text) → Option Registry → Answer
encode_registry encode none = not_enabled
encode_registry encode (some registry) = body_of (encode registry)

unfoldable pub handle_metrics : (Registry → Option Text) → AppState → Answer
unfolding encode_registry
handle_metrics encode state = encode_registry encode state.registry

-- The publisher is ready exactly while some sidecar is connected.
handle_ready_lem :
    (state : AppState)
    → ((connection_count state.connections ≡ 0) × (handle_ready state ≡ no_connections))
      ⊎ ((1 ≤ connection_count state.connections)
          × (handle_ready state ≡ ready_with (connection_count state.connections)))
unfolding handle_ready
handle_ready_lem state = elim (Bool-cases (connection_count state.connections == 0)) [
  | inl nobody ↦ inl (ground arith, rw nobody refl)
  | inr somebody ↦ inr (ground arith, rw somebody refl)
]
