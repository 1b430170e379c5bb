-- ===== src/Tests/Protocol.antt =====
-- Runs of crates/spec-sbcp and of the settlement of proofs.
use publisher.Base.{ℕ, ◌<◌, ◌+◌, ◌≡◌, ◌↔◌, ◌⊎◌, refl, none, some, List, [], ◌∷◌, arith, ℕ_discrete}
use publisher.Base.Maps.{get, insert, values}
use publisher.Base.Results.{ok}
use publisher.Base.Lists.{contains}
use publisher.Base.Words.{add64}
use publisher.Spec.Instance.{Instance, chains_from_request}
use publisher.Sbcp.Id.{generate_instance_id}
use publisher.Sbcp.Block.{BlockHeader, PendingBlock}
use publisher.Sbcp.Publisher.{PublisherState, past_window, start_period, start_instance}
use publisher.Sbcp.Sequencer
use publisher.Sbcp.Sequencer.{
  SequencerState, Remote, request_proofs, end_block, on_start_instance, begin_block,
}
use publisher.Sbcp.Settling.{first_call, end_block_settles}
use publisher.Sbcp.Together.{run, period_started, block_begun, run_admits}
use publisher.Coordinator.ProofTypes.{ProofData}
use publisher.Coordinator.State.{CoordinatorState}
use publisher.Coordinator.Settlement.{collect_proof, init_superblock}
use publisher.Coordinator.Settlement.Resubmission.{submitted_twice}
use publisher.Coordinator.History
use publisher.Coordinator.History.{proof_received}
use publisher.Coordinator.Mailbox.{validate_mailbox_consistency, get_elem?}
use publisher.Coordinator.Mailbox.Accepts.{AreMatched, validate_iff}
use publisher.Coordinator.Submission.Seeding.{
  Oracle, IsSeeded, IsUnreadable, fetch_latest_superblock_state, seeding_lem,
}
use publisher.Tests.{plain, idle, bare_proof, other_proof}
use publisher.Tests.Shared.{sharing, pair, plain_sha, settled_at_7}

abbrev header_31 : BlockHeader
header_31 = record { number = 31; block_hash = 1 ∷ []; state_root = 2 ∷ [] }

abbrev open_31 : PendingBlock
open_31 = record { number = 31; period_id = 4; superblock_number = 8 }

-- Two periods have begun since the block was opened.
abbrev late : SequencerState
late = record (Sequencer.new 6 10 settled_at_7) { pending_block = some open_31 }

abbrev answering : Remote
answering = record { prove = λ h n. ok []; send = λ p n b. ok tt; forward = λ r. ok tt }

end_block_settles_example :
    ((6 ≡ 4 + 1)
      × (first_call (end_block answering late header_31).1
          ≡ some (request_proofs (some header_31) 9)))
    ⊎ ((4 + 1 < 6)
        × (first_call (end_block answering late header_31).1 ≡ some (request_proofs none 9)))
unfolding Sequencer.new get
end_block_settles_example =
    end_block_settles answering late open_31 header_31 refl refl refl refl (omega arith)
      (omega arith) (omega arith) (omega arith)

-- A period begins, and the sequencer opens a block in it.
abbrev shared : PublisherState × SequencerState
shared =
    run plain_sha answering (sharing, Sequencer.new 4 9 settled_at_7)
      (period_started ∷ block_begun 31 ∷ [])

abbrev next_instance : Instance
next_instance = record {
  id = generate_instance_id plain_sha 5 1 pair;
  period_id = 5;
  sequence_number = 1;
  xt_request = pair;
}

abbrev next_block : PendingBlock
next_block = record { number = 31; period_id = 5; superblock_number = 10 }

run_admits_example :
    (on_start_instance shared.1 next_instance.id next_instance.period_id
      next_instance.sequence_number).1
    ≡ ok tt
unfolding run start_instance start_period Sequencer.new Sequencer.start_period begin_block add64
    contains ℕ_discrete get chains_from_request past_window
run_admits_example =
    run_admits plain_sha answering sharing (Sequencer.new 4 9 settled_at_7)
      (period_started ∷ block_begun 31 ∷ []) pair next_instance next_block refl refl (omega arith)
      refl refl refl refl

abbrev lone : List (ℕ × ProofData)
lone = (1, bare_proof) ∷ []

validate_iff_example : (validate_mailbox_consistency lone ≡ ok tt) ↔ (
    (k i : ℕ) (p : ProofData)
    → get_elem? lone k ≡ some (i, p)
    → AreMatched (values lone) p.mailbox_info)
validate_iff_example = validate_iff lone

-- Each chain sends a proof, and then another.
abbrev half_collected : CoordinatorState
half_collected = (collect_proof idle 40 1 bare_proof 3).0

submitted_twice_example : idle.next_superblock_number ≡ 8
unfolding collect_proof insert get ℕ_discrete History.run
submitted_twice_example =
    submitted_twice plain half_collected (proof_received 41 1 bare_proof 5 ∷ []) 40 2 other_proof 4
      41 2 other_proof 6 8 8 ((1, bare_proof) ∷ (2, other_proof) ∷ [])
      ((1, bare_proof) ∷ (2, other_proof) ∷ []) ((λ b. b), tt) refl refl

abbrev oracle : Oracle
oracle = record {
  build_provider = ok tt;
  latest_superblock_number = ok 12;
  get_superblock_hash = λ n. ok 5;
}

seeding_lem_example :
    let f = fetch_latest_superblock_state oracle 0 in
    IsSeeded oracle idle (init_superblock idle f.1) f.0
    ⊎ (IsUnreadable oracle × (f.0 ≡ 0) × (init_superblock idle f.1 ≡ idle))
seeding_lem_example = seeding_lem oracle 0 idle
