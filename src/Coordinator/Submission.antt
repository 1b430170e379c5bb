-- ===== src/Coordinator/Submission.antt =====
-- crates/coordinator/src/l1_submit.rs: `L1Submitter`. ABI encoding, the two hash functions and what
-- the contract and the chain answer to each attempt are parameters.
pub mod Order
pub mod Provider
pub mod Outcome
pub mod Unordered
pub mod Retries
pub mod Seeding
use publisher.Base.{ℕ, zero, suc, ◌+◌, ◌*◌, ◌^◌, Option, none, some, List, [], ◌∷◌, ◌++◌, map}
use publisher.Base.Tests.{ltb, leb, if◌then◌else◌}
use publisher.Base.Maps.{values}
use publisher.Base.Results.{Result, ok, err}
use publisher.Spec.Primitives.{Bytes, Text}
use publisher.Coordinator.ProofTypes.{B256, ProofData}

abbrev pub max_retries : ℕ
max_retries = 3

-- In seconds.
abbrev pub initial_retry_delay : ℕ
initial_retry_delay = 2

pub record BootInfoStruct : Type 0 where
  pub l1_head : B256
  pub l2_pre_root : B256
  pub l2_post_root : B256
  pub l2_block_number : ℕ
  pub rollup_config_hash : B256

pub record SuperblockAggregationOutputs : Type 0 where
  pub superblock_number : ℕ
  pub parent_superblock_batch_hash : B256
  pub boot_info : List BootInfoStruct

-- `abi_encode`, `abi_encode_params`, SHA-256 and Keccak-256.
pub record Encoding : Type 0 where
  pub abi_encode : SuperblockAggregationOutputs → Bytes
  pub abi_encode_params : SuperblockAggregationOutputs → Bytes → Bytes
  pub sha256 : Bytes → B256
  pub keccak256 : Bytes → B256

-- The arguments of `proposeL2Output`.
pub record Proposal : Type 0 where
  pub output_root : B256
  pub l1_hash : B256
  pub extra_data : Bytes

abbrev pub key : ProofData → B256
key p = p.aggregation_outputs.rollup_config_hash

-- `sort_by_key`, which is stable.
unfoldable pub place : ProofData → List ProofData → List ProofData
place p [] = p ∷ []
place p (q ∷ qs) = let rest = place p qs in if leb (key p) (key q) then p ∷ q ∷ qs else q ∷ rest

unfoldable pub sort_by_key : List ProofData → List ProofData
unfolding place
sort_by_key [] = []
sort_by_key (p ∷ ps) = place p (sort_by_key ps)

unfoldable pub boot_info_of : ProofData → BootInfoStruct
boot_info_of p = record {
  l1_head = p.aggregation_outputs.l1_head;
  l2_pre_root = p.aggregation_outputs.l2_pre_root;
  l2_post_root = p.aggregation_outputs.l2_post_root;
  l2_block_number = p.aggregation_outputs.l2_block_number;
  rollup_config_hash = p.aggregation_outputs.rollup_config_hash;
}

unfoldable pub concat_proofs : List ProofData → Bytes
concat_proofs [] = []
concat_proofs (p ∷ ps) = p.compressed_proof ++ concat_proofs ps

-- `max().unwrap_or(ZERO)` of the L1 heads.
unfoldable pub highest_head : List ProofData → B256
highest_head [] = 0
highest_head (p ∷ ps) =
    let rest = highest_head ps in
    if ltb rest p.aggregation_outputs.l1_head then p.aggregation_outputs.l1_head else rest

unfoldable pub agg_outputs_of : B256 → ℕ → List ProofData → SuperblockAggregationOutputs
unfolding sort_by_key boot_info_of
agg_outputs_of parent superblock_number proofs = record {
  superblock_number = superblock_number;
  parent_superblock_batch_hash = parent;
  boot_info = map boot_info_of (sort_by_key proofs);
}

-- What `submit` proposes, from the values of the proof map in its order of iteration.
unfoldable pub propose : Encoding → B256 → ℕ → List ProofData → Proposal
unfolding agg_outputs_of concat_proofs highest_head
propose enc parent superblock_number proofs =
    let agg_outputs = agg_outputs_of parent superblock_number proofs in
    record {
      output_root = enc.sha256 (enc.abi_encode agg_outputs);
      l1_hash = highest_head proofs;
      extra_data = enc.abi_encode_params agg_outputs (concat_proofs (sort_by_key proofs));
    }

-- What comes back of an attempt: a receipt, or an error of the sending or of the waiting.
pub data Attempt : Type 0 where
  receipt : Attempt
  failed : Text → Attempt

-- The wait before an attempt.
unfoldable pub delay : ℕ → ℕ
delay zero = 0
delay (suc attempt) = initial_retry_delay * 2 ^ attempt

abbrev error_of : Attempt → Option Text
error_of receipt = none
error_of (failed e) = some e

-- What an attempt leads to, given what those after it would.
unfoldable pub conclude :
    Attempt
    → ℕ
    → List ℕ
    → Result (Option Text) (Unit {0})
    → List ℕ × Result (Option Text) (Unit {0})
conclude receipt wait waits result = (wait ∷ [], ok tt)
conclude (failed e) wait waits result = (wait ∷ waits, result)

-- The loop: `left` attempts are left from `attempt` on. The waits that were made, and the error of
-- the last attempt unless one was receipted.
unfoldable pub attempts :
    (ℕ → Attempt) → ℕ → ℕ → Option Text → List ℕ × Result (Option Text) (Unit {0})
unfolding delay conclude
attempts answer zero attempt last_err = ([], err last_err)
attempts answer (suc left) attempt last_err =
    let (waits, result) = attempts answer left (suc attempt) (error_of (answer attempt)) in
    conclude (answer attempt) (delay attempt) waits result

abbrev pub parent_after :
    Encoding → SuperblockAggregationOutputs → B256 → Result (Option Text) (Unit {0}) → B256
parent_after enc agg_outputs parent (ok _) = enc.keccak256 (enc.abi_encode agg_outputs)
parent_after enc agg_outputs parent (err e) = parent

-- The parent hash after `submit`, the waits, and the result. `answer` is what comes back of each
-- attempt to propose.
unfoldable pub submit :
    Encoding
    → (Proposal → ℕ → Attempt)
    → B256
    → ℕ
    → List (ℕ × ProofData)
    → B256 × List ℕ × Result (Option Text) (Unit {0})
unfolding propose attempts
submit enc answer parent superblock_number proofs =
    let ordered = values proofs in
    let (waits, result) =
      attempts (answer (propose enc parent superblock_number ordered)) max_retries 0 none in
    (
      parent_after enc (agg_outputs_of parent superblock_number ordered) parent result,
      waits,
      result,
    )
