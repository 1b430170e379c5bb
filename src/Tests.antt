-- ===== src/Tests.antt =====
-- The inputs of the tests.
pub mod Rounds
pub mod Proofs
pub mod Shared
pub mod Wire
pub mod Network
pub mod Program
pub mod Protocol
pub mod Tasks
pub mod Outside
use publisher.Base.{true, none, [], ◌∷◌}
use publisher.Spec.Primitives.{Text}
use publisher.Proto.Messages.{XtRequest}
use publisher.Coordinator.ProofTypes.{ProofData, default_aggregation_outputs, default_mailbox_info}
use publisher.Coordinator.State.{External, ActiveXt, CoordinatorState}
use publisher.Coordinator.Service.{Coordinator}

abbrev pub plain : External
plain = record { sha256 = λ b. b; encode_to_vec = λ m. []; decode = λ b. none; hex_encode = λ b. b }

abbrev pub idle : CoordinatorState
idle = record {
  chain_to_client = (1, 10 ∷ []) ∷ (2, 20 ∷ []) ∷ [];
  client_to_chain = (10 ∷ [], 1) ∷ (20 ∷ [], 2) ∷ [];
  active_xts = [];
  active_chains = [];
  pending_queue = [];
  current_period_id = 4;
  next_sequence_num = 1;
  next_superblock_number = 8;
  last_finalized_superblock_number = 7;
  last_finalized_superblock_hash = 5 ∷ [];
  pending_proofs = [];
  proof_collection_started = none;
}

abbrev pub half_voted : ActiveXt
half_voted = record { chains = 1 ∷ 2 ∷ []; votes = []; instance_id_bytes = 7 ∷ []; start_time = 5 }

abbrev pub xt_id : Text
xt_id = 7 ∷ []

abbrev pub busy : CoordinatorState
busy = record idle {
  active_xts = (xt_id, half_voted) ∷ [];
  active_chains = (1, xt_id) ∷ (2, xt_id) ∷ [];
}

abbrev pub both_chains : XtRequest
both_chains = record {
  transaction_requests =
      record { chain_id = 1; transaction = (9 ∷ []) ∷ [] }
      ∷ record { chain_id = 2; transaction = (8 ∷ []) ∷ [] }
      ∷ [];
}

abbrev pub bare_proof : ProofData
bare_proof = record {
  aggregation_outputs = record default_aggregation_outputs { l1_head = 3; rollup_config_hash = 1 };
  compressed_proof = 6 ∷ [];
  agg_vkey_hash = 0;
  mailbox_info = default_mailbox_info;
}

abbrev pub other_proof : ProofData
other_proof = record {
  aggregation_outputs = record default_aggregation_outputs { l1_head = 4; rollup_config_hash = 2 };
  compressed_proof = 5 ∷ [];
  agg_vkey_hash = 0;
  mailbox_info = default_mailbox_info;
}

abbrev pub serving : CoordinatorState → Coordinator
serving s = record {
  state = s;
  metrics = none;
  l1_submitter = true;
  scp_timeout = 60;
  proof_window = 7200;
  messages_processed = 0;
  broadcasts_sent = 0;
  start_time = 0;
}
