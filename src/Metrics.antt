-- ===== src/Metrics.antt =====
-- crates/metrics/src/lib.rs: what is registered under which name, and the counters at the start. The
-- registry of prometheus_client is the list of names and helps, in the order of registration.
use publisher.Base.{ℕ, List, [], ◌∷◌, ◌++◌}
use publisher.Spec.Primitives.{Text, codes}

abbrev pub Registry : Type 0
Registry = List (Text × Text)

-- `PublisherMetrics`: its counters, its gauge as the 64 bits of an `i64`, and the observed latencies.
pub record Metrics : Type 0 where
  pub connections_active : ℕ
  pub messages_received_total : ℕ
  pub broadcasts_sent_total : ℕ
  pub xt_started_total : ℕ
  pub xt_decided_commit_total : ℕ
  pub xt_decided_abort_total : ℕ
  pub xt_queued_total : ℕ
  pub xt_decision_latency_seconds : List ℕ
  pub period_broadcast_total : ℕ

-- The upper bounds of the histogram's buckets, in milliseconds.
abbrev pub latency_buckets : List ℕ
latency_buckets = 10 ∷ 50 ∷ 100 ∷ 250 ∷ 500 ∷ 1000 ∷ 2500 ∷ 5000 ∷ 10000 ∷ []

-- What `new` registers.
abbrev pub registered_names : Registry
registered_names =
    (codes "publisher_connections_active", codes "Active sidecar connections")
    ∷ (codes "publisher_messages_received", codes "Inbound messages from sidecars")
    ∷ (codes "publisher_broadcasts_sent", codes "Broadcast messages sent to sidecars")
    ∷ (codes "publisher_xt_started", codes "Cross-chain transactions started")
    ∷ (codes "publisher_xt_decided_commit", codes "Cross-chain transactions committed")
    ∷ (codes "publisher_xt_decided_abort", codes "Cross-chain transactions aborted")
    ∷ (codes "publisher_xt_queued", codes "Cross-chain transactions queued due to chain overlap")
    ∷ (codes "publisher_xt_decision_latency_seconds", codes "Time from XT start to decision")
    ∷ (codes "publisher_period_broadcast", codes "Period broadcasts sent")
    ∷ []

unfoldable pub new_metrics : Registry → Registry × Metrics
new_metrics registry = (
  registry ++ registered_names,
  record {
    connections_active = 0;
    messages_received_total = 0;
    broadcasts_sent_total = 0;
    xt_started_total = 0;
    xt_decided_commit_total = 0;
    xt_decided_abort_total = 0;
    xt_queued_total = 0;
    xt_decision_latency_seconds = [];
    period_broadcast_total = 0;
  },
)
