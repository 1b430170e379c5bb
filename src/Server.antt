-- ===== src/Server.antt =====
-- crates/server/src/handlers/proofs.rs: the HTTP submission of a proof. The body is what serde has
-- decoded; `proof` is absent by default.
pub mod Health
use publisher.Base.{
  ℕ, ◌≡◌, ◌≢◌, ◌⊎◌, refl, true, false, not, inl, inr, Option, none, some, List, [], arith,
}
use publisher.Base.Tests.{◌==◌, ==→≡, if◌then◌else◌, Bool-cases}
use publisher.Spec.Primitives.{Bytes}
use publisher.Coordinator.ProofTypes.{B256, AggregationOutputs, ProofData, default_mailbox_info}
use publisher.Coordinator.Service.{Coordinator, Effect, is_chain_registered, receive_proof}

pub record ProofSubmission : Type 0 where
  pub superblock_number : ℕ
  pub chain_id : ℕ
  pub aggregation_outputs : AggregationOutputs
  pub agg_vkey_hash : B256
  pub proof : Option Bytes

pub data StatusCode : Type 0 where
  bad_request : StatusCode
  accepted : StatusCode

abbrev unwrap_or_default : Option Bytes → Bytes
unwrap_or_default none = []
unwrap_or_default (some b) = b

unfoldable pub submitted_data : ProofSubmission → ProofData
submitted_data body = record {
  aggregation_outputs = body.aggregation_outputs;
  compressed_proof = unwrap_or_default body.proof;
  agg_vkey_hash = body.agg_vkey_hash;
  mailbox_info = default_mailbox_info;
}

unfoldable pub handle_submit_proof :
    Coordinator → ProofSubmission → ℕ → Coordinator × List Effect × StatusCode
unfolding submitted_data is_chain_registered receive_proof
handle_submit_proof c body now =
    let (c', effects) =
      receive_proof c body.superblock_number body.chain_id (submitted_data body) now in
    if body.aggregation_outputs.l1_head == 0
    then (c, [], bad_request)
    else if not (is_chain_registered c body.chain_id)
    then (c, [], bad_request)
    else (c', effects, accepted)

-- A submission is accepted exactly if its L1 head is not zero and its chain is registered, and then
-- the coordinator receives it; one that is refused changes nothing and sends nothing.
handle_submit_proof_lem :
    (c : Coordinator) (body : ProofSubmission) (now : ℕ)
    → ((body.aggregation_outputs.l1_head ≢ 0)
        × (is_chain_registered c body.chain_id ≡ true)
        × (let (c', effects) =
              receive_proof c body.superblock_number body.chain_id (submitted_data body) now in
            handle_submit_proof c body now ≡ (c', effects, accepted)))
      ⊎ (((body.aggregation_outputs.l1_head ≡ 0) ⊎ (is_chain_registered c body.chain_id ≡ false))
          × (handle_submit_proof c body now ≡ (c, [], bad_request)))
unfolding handle_submit_proof
handle_submit_proof_lem c body now = elim (Bool-cases (body.aggregation_outputs.l1_head == 0)) [
  | inl zero_head ↦ inr (inl (==→≡ body.aggregation_outputs.l1_head 0 zero_head), rw zero_head refl)
  | inr head ↦ elim (Bool-cases (is_chain_registered c body.chain_id)) [
    | inl known ↦ inl (λ z. ground arith, known, rw head (rw known refl))
    | inr unknown ↦ inr (inr unknown, rw head (rw unknown refl))
  ]
]
