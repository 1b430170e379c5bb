-- ===== src/Program/Startup.antt =====
-- bin/publisher/src/main.rs: what `main` makes of the configuration before anything is served.
use publisher.Base.{ℕ, Bool, true, false, not, ◌&&◌, Option, none, some, []}
use publisher.Base.Tests.{if◌then◌else◌}
use publisher.Base.Lists.{is_empty}
use publisher.Base.Results.{Result}
use publisher.Coordinator.ProofTypes.{B256}
use publisher.Coordinator.Service.{Coordinator, new, with_l1_submitter, init_from_l1}
use publisher.Spec.Primitives.{Text}
use publisher.Metrics.{Metrics, Registry, new_metrics}
use publisher.Config.{Config, SettlementConfig}
use publisher.Transport.Framing.{LengthPrefixCodec}
use publisher.Transport.Connections.{ConnectionRegistry}

-- The server and the coordinator, which the tasks share.
pub record Node : Type 0 where
  pub codec : LengthPrefixCodec
  pub registry : ConnectionRegistry
  pub coordinator : Coordinator

-- `QuicServer::new` and its codec's `new`, but for the address.
abbrev pub new_server : ℕ → Coordinator → Node
new_server max_message_size c = record {
  codec = record { max_message_size = max_message_size };
  registry = [];
  coordinator = c;
}

unfoldable pub is_settlement_configured : SettlementConfig → Bool
is_settlement_configured s =
    not (is_empty s.l1_rpc_url) && (not (is_empty s.l2oo_address) && not (is_empty s.proposer_key))

-- `created` is whether `L1Submitter::new` succeeds on the settings.
unfoldable pub l1_submitter_of : (SettlementConfig → Bool) → SettlementConfig → Bool
unfolding is_settlement_configured
l1_submitter_of created s = if is_settlement_configured s then created s else false

-- The registry, which the HTTP server gets if metrics are enabled, and the metrics.
unfoldable pub metrics_of : Bool → Option Registry × Option Metrics
unfolding new_metrics
metrics_of true = let (registry, metrics) = new_metrics [] in (some registry, some metrics)
metrics_of false = (none, none)

-- The node once the coordinator has read its state from L1.
unfoldable pub start :
    (SettlementConfig → Bool) → Config → ℕ → Result Text (Option (ℕ × B256)) → Node
unfolding l1_submitter_of metrics_of init_from_l1 new with_l1_submitter
start created cfg now latest =
    let c =
      new (metrics_of cfg.metrics.enabled).1 cfg.consensus.timeout cfg.consensus.proof_window now in
    let coordinator = if l1_submitter_of created cfg.settlement then with_l1_submitter c else c in
    new_server cfg.server.max_message_size (init_from_l1 coordinator latest)
