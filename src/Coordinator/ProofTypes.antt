-- ===== src/Coordinator/ProofTypes.antt =====
-- crates/coordinator/src/proof_types.rs. A `B256` or an address is the number whose big-endian
-- bytes it holds; their order in the source is that of the numbers.
use publisher.Base.{ℕ, List, []}
use publisher.Spec.Primitives.{Bytes}

abbrev pub B256 : Type 0
B256 = ℕ

abbrev pub Address : Type 0
Address = ℕ

pub record AggregationOutputs : Type 0 where
  pub l1_head : B256
  pub l2_pre_root : B256
  pub l2_post_root : B256
  pub l2_block_number : ℕ
  pub rollup_config_hash : B256
  pub mailbox_root : B256
  pub multi_block_vkey : B256
  pub prover_address : Address

pub record MailboxInfo : Type 0 where
  pub inbox_chains : List B256
  pub outbox_chains : List B256
  pub inbox_roots : List B256
  pub outbox_roots : List B256

pub record ProofData : Type 0 where
  pub aggregation_outputs : AggregationOutputs
  pub compressed_proof : Bytes
  pub agg_vkey_hash : B256
  pub mailbox_info : MailboxInfo

-- The derived defaults.
abbrev pub default_aggregation_outputs : AggregationOutputs
default_aggregation_outputs = record {
  l1_head = 0;
  l2_pre_root = 0;
  l2_post_root = 0;
  l2_block_number = 0;
  rollup_config_hash = 0;
  mailbox_root = 0;
  multi_block_vkey = 0;
  prover_address = 0;
}

abbrev pub default_mailbox_info : MailboxInfo
default_mailbox_info = record {
  inbox_chains = [];
  outbox_chains = [];
  inbox_roots = [];
  outbox_roots = [];
}
