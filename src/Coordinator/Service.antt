-- ===== src/Coordinator/Service.antt =====
-- crates/coordinator/src/coordinator.rs: `Coordinator`, its counters, and the handlers. A handler
-- returns the coordinator and its effects in order. What it does after its last lock is released
-- depends on no shared state but the counters, so the effects follow the state here.
use publisher.Base.{ℕ, Bool, true, false, Option, none, some, List, [], ◌∷◌, ℕ_discrete}
use publisher.Base.Tests.{if◌then◌else◌}
use publisher.Base.Lists.{length}
use publisher.Base.Maps.{get, contains_key}
use publisher.Base.Words.{add64, sub64}
use publisher.Base.Results.{Result, ok, err}
use publisher.Spec.Primitives.{Bytes, Text, text_discrete, ChainId}
use publisher.Metrics.{Metrics}
use publisher.Coordinator.ProofTypes.{B256, ProofData}
use publisher.Coordinator.State
use publisher.Coordinator.State.{CoordinatorState}
use publisher.Coordinator.Settlement.{init_superblock, collect_proof, finalize}
use publisher.Coordinator.Mailbox.{validate_mailbox_consistency}

-- `l1_submitter` is whether one is configured.
pub record Coordinator : Type 0 where
  pub state : CoordinatorState
  pub metrics : Option Metrics
  pub l1_submitter : Bool
  pub scp_timeout : ℕ
  pub proof_window : ℕ
  pub messages_processed : ℕ
  pub broadcasts_sent : ℕ
  pub start_time : ℕ

-- What leaves the coordinator: frames to all or to one sidecar, and a submission to L1 that runs as
-- a task of its own.
pub data Effect : Type 0 where
  broadcast_raw : Bytes → Effect
  send_raw : Text → Bytes → Effect
  spawn_submit : ℕ → List (ℕ × ProofData) → Effect

unfoldable pub new : Option Metrics → ℕ → ℕ → ℕ → Coordinator
unfolding State.new
new metrics scp_timeout proof_window now = record {
  state = State.new;
  metrics = metrics;
  l1_submitter = false;
  scp_timeout = scp_timeout;
  proof_window = proof_window;
  messages_processed = 0;
  broadcasts_sent = 0;
  start_time = now;
}

unfoldable pub with_l1_submitter : Coordinator → Coordinator
with_l1_submitter c = record c { l1_submitter = true }

-- `if let Some(m) = &self.metrics`.
abbrev pub count : (Metrics → Metrics) → Coordinator → Coordinator
count f c = record c { metrics = elim c.metrics [ none ↦ none | some m ↦ some (f m) ] }

unfoldable pub inc_messages : Coordinator → Coordinator
inc_messages c =
    count (λ m. record m { messages_received_total = add64 m.messages_received_total 1 })
      (record c { messages_processed = add64 c.messages_processed 1 })

unfoldable pub inc_broadcasts : Coordinator → Coordinator
inc_broadcasts c =
    count (λ m. record m { broadcasts_sent_total = add64 m.broadcasts_sent_total 1 })
      (record c { broadcasts_sent = add64 c.broadcasts_sent 1 })

abbrev pub count_started : Coordinator → Coordinator
count_started = count (λ m. record m { xt_started_total = add64 m.xt_started_total 1 })

abbrev pub count_queued : Coordinator → Coordinator
count_queued = count (λ m. record m { xt_queued_total = add64 m.xt_queued_total 1 })

abbrev pub count_abort : Coordinator → Coordinator
count_abort = count (λ m. record m { xt_decided_abort_total = add64 m.xt_decided_abort_total 1 })

abbrev pub count_connection : Coordinator → Coordinator
count_connection = count (λ m. record m { connections_active = add64 m.connections_active 1 })

abbrev pub uncount_connection : Coordinator → Coordinator
uncount_connection = count (λ m. record m { connections_active = sub64 m.connections_active 1 })

abbrev pub count_period : Coordinator → Coordinator
count_period = count (λ m. record m { period_broadcast_total = add64 m.period_broadcast_total 1 })

-- The counters of a decision.
unfoldable pub count_decision : Bool → ℕ → Coordinator → Coordinator
count_decision decision latency = count (λ m.
    let seen = record m { xt_decision_latency_seconds = latency ∷ m.xt_decision_latency_seconds } in
    if decision
    then record seen { xt_decided_commit_total = add64 m.xt_decided_commit_total 1 }
    else record seen { xt_decided_abort_total = add64 m.xt_decided_abort_total 1 })

unfoldable pub register_chain : Coordinator → Text → ChainId → Coordinator
unfolding State.register_chain
register_chain c client_id chain_id = record c {
  state = State.register_chain c.state client_id chain_id;
}

-- `latest` is the answer of `fetch_latest_superblock_state`.
unfoldable pub init_from_l1 : Coordinator → Result Text (Option (ℕ × B256)) → Coordinator
unfolding init_superblock
init_from_l1 c latest =
    if c.l1_submitter then record c { state = init_superblock c.state latest } else c

unfoldable pub is_chain_registered : Coordinator → ChainId → Bool
is_chain_registered c chain_id = contains_key ℕ_discrete chain_id c.state.chain_to_client

unfoldable pub chain_for_client : Coordinator → Text → Option ChainId
chain_for_client c client_id = get text_discrete client_id c.state.client_to_chain

unfoldable pub current_superblock_number : Coordinator → ℕ
current_superblock_number c = c.state.next_superblock_number

-- The part of `stats` that the state determines.
pub record Stats : Type 0 where
  pub registered_chains : ℕ
  pub active_2pc_transactions : ℕ
  pub active_chains : ℕ
  pub queued_xts : ℕ
  pub pending_proof_superblocks : ℕ
  pub current_period_id : ℕ
  pub next_superblock_number : ℕ
  pub last_finalized_superblock : ℕ
  pub messages_processed : ℕ
  pub broadcasts_sent : ℕ

unfoldable pub stats : Coordinator → Stats
stats c = record {
  registered_chains = length c.state.chain_to_client;
  active_2pc_transactions = length c.state.active_xts;
  active_chains = length c.state.active_chains;
  queued_xts = length c.state.pending_queue;
  pending_proof_superblocks = length c.state.pending_proofs;
  current_period_id = c.state.current_period_id;
  next_superblock_number = c.state.next_superblock_number;
  last_finalized_superblock = c.state.last_finalized_superblock_number;
  messages_processed = c.messages_processed;
  broadcasts_sent = c.broadcasts_sent;
}

-- After the submission: the task's effect on the state. A failure changes nothing.
unfoldable pub on_submitted : Coordinator → ℕ → Bool → Coordinator
unfolding finalize
on_submitted c superblock_number success =
    if success then record c { state = finalize c.state superblock_number } else c

unfoldable pub settle : Coordinator → Option (ℕ × List (ℕ × ProofData)) → List Effect
settle c none = []
settle c (some (sb_number, proofs)) = elim (validate_mailbox_consistency proofs) [
  | err e ↦ []
  | ok _ ↦ if c.l1_submitter then spawn_submit sb_number proofs ∷ [] else []
]

unfoldable pub receive_proof : Coordinator → ℕ → ℕ → ProofData → ℕ → Coordinator × List Effect
unfolding collect_proof settle
receive_proof c superblock_number chain_id proof now =
    let (s, ready_proofs) = collect_proof c.state superblock_number chain_id proof now in
    (record c { state = s }, settle c ready_proofs)
