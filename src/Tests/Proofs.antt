-- ===== src/Tests/Proofs.antt =====
-- Runs of crates/coordinator and crates/server: settlement, mailboxes and submission.
use publisher.Base.{◌≡◌, refl, none, some, List, [], ◌∷◌, arith, ℕ_discrete}
use publisher.Base.Lists.{length, contains}
use publisher.Base.Maps.{get, insert}
use publisher.Base.Words.{add64}
use publisher.Base.Results.{err}
use publisher.Coordinator.ProofTypes.{MailboxInfo, ProofData}
use publisher.Coordinator.State.{CoordinatorState, new}
use publisher.Coordinator.Settlement.{collect_proof, finalize, begin_rollback}
use publisher.Coordinator.Settlement.Coverage.{IsPart, collect_proof-covers}
use publisher.Coordinator.History.{Event, registered, proof_received, finalized, run}
use publisher.Coordinator.Settlement.Expiry.{IsTimed, run-IsTimed}
use publisher.Coordinator.Settlement.StaleHash.{rollback_after_finalize}
use mathlib.Core.Quot
use publisher.Coordinator.Submission.{Encoding, Proposal, propose}
use publisher.Coordinator.Submission.Order.{IsKeyed}
use publisher.Coordinator.Submission.Unordered.{ProofMap, propose_unordered}
use publisher.Coordinator.Mailbox.{mismatch, validate_mailbox_consistency}
use publisher.Coordinator.Mailbox.Counterparty.{validate_refuses_exchange}
use publisher.Sbcp.Sequencer
use publisher.Sbcp.Sequencer.{SequencerState, mismatched_finalized_state}
use publisher.Tests.{plain, idle, bare_proof, other_proof}

-- One of two proofs is there.
abbrev collecting : CoordinatorState
collecting = record idle {
  pending_proofs = (1, record { superblock_number = 40; proof_data = bare_proof }) ∷ [];
  proof_collection_started = some 100;
}

collect_proof-covers_example :
    (collecting.next_superblock_number ≡ 8)
    × IsPart collecting.chain_to_client ((1, bare_proof) ∷ (2, other_proof) ∷ [])
unfolding get contains ℕ_discrete collect_proof insert
collect_proof-covers_example =
    collect_proof-covers collecting 50 2 other_proof 120 8 ((1, bare_proof) ∷ (2, other_proof) ∷ [])
      (refl, tt) (λ a h. ground arith) refl refl

-- A collection that completes, and one that does not.
abbrev collections : List Event
collections =
    registered (10 ∷ []) 1
    ∷ proof_received 40 1 bare_proof 100
    ∷ finalized 1
    ∷ registered (20 ∷ []) 2
    ∷ proof_received 41 1 bare_proof 120
    ∷ []

run-IsTimed_example : IsTimed (run plain new collections)
run-IsTimed_example = run-IsTimed plain collections

collecting-IsTimed : IsTimed collecting
unfolding add64
collecting-IsTimed = record { next = refl; timed = refl }

abbrev settled_at_8 : SequencerState
settled_at_8 = record {
  period_id = 4;
  target_superblock_number = 9;
  pending_block = none;
  active_instance_id = none;
  last_sequence_number = none;
  head = 30;
  sealed_block_head = [];
  settled_state = record {
    block_header = record { number = 30; block_hash = 1 ∷ []; state_root = 2 ∷ [] };
    superblock_number = 8;
    superblock_hash = 6 ∷ [];
  };
}

rollback_after_finalize_example :
    let message = (begin_rollback (finalize idle 8)).1 in
    (message.last_finalized_superblock_number ≡ 8)
    × ((Sequencer.rollback settled_at_8 message.last_finalized_superblock_number
          message.last_finalized_superblock_hash message.period_id)
        ≡ (settled_at_8, err mismatched_finalized_state))
rollback_after_finalize_example = rollback_after_finalize idle 8 settled_at_8 refl (λ e. cc)

abbrev pub flat : Encoding
flat = record {
  abi_encode = λ o. o.superblock_number ∷ [];
  abi_encode_params = λ o b. o.superblock_number ∷ b;
  sha256 = length;
  keccak256 = length;
}

propose_unordered_example :
    (on_maps : ProofMap → Proposal) × ((ps : List ProofData) (k : IsKeyed ps)
      → on_maps (Quot.mk (ps, k)) ≡ propose flat 0 8 ps)
propose_unordered_example = propose_unordered flat 0 8

abbrev with_mailbox : MailboxInfo → ProofData
with_mailbox m = record bare_proof { mailbox_info = m }

-- Chain 1 gets root 5 from chain 2 and sends it root 6.
abbrev first_side : ProofData
first_side = with_mailbox (record {
  inbox_chains = 2 ∷ [];
  outbox_chains = 2 ∷ [];
  inbox_roots = 5 ∷ [];
  outbox_roots = 6 ∷ [];
})

abbrev second_side : ProofData
second_side = with_mailbox (record {
  inbox_chains = 1 ∷ [];
  outbox_chains = 1 ∷ [];
  inbox_roots = 6 ∷ [];
  outbox_roots = 5 ∷ [];
})

validate_refuses_exchange_example :
    validate_mailbox_consistency ((1, first_side) ∷ (2, second_side) ∷ []) ≡ err (mismatch 1 2)
validate_refuses_exchange_example =
    validate_refuses_exchange first_side second_side 1 2 1 2 5 6 (λ e. omega arith)
      (λ e. omega arith) refl refl
