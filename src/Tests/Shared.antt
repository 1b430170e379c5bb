-- ===== src/Tests/Shared.antt =====
-- Runs of crates/spec-sbcp: the publisher and the sequencer.
use publisher.Base.{
  ◌+◌, ◌-◌, ◌%◌, ◌≤◌, ◌<◌, ◌≡◌, ◌⊎◌, inr, refl, none, some, List, [], ◌∷◌, arith, ℕ_discrete,
}
use publisher.Base.Lists.{length, contains}
use publisher.Base.Maps.{get, insert, values}
use publisher.Base.Words.{u64_mod, add64, sub64}
use publisher.Base.Results.{ok, err}
use publisher.Spec.Primitives.{Bytes, text_discrete}
use publisher.Spec.Instance.{XtRequest, Instance, chains_from_request}
use publisher.Sbcp.Id.{generate_instance_id}
use publisher.Sbcp.Block.{PendingBlock, BlockHeader, SettledState}
use publisher.Sbcp.Publisher
use publisher.Sbcp.Publisher.{
  PublisherState, start_period, start_instance, broadcast_start_period, cannot_start_period,
}
use publisher.Sbcp.Proofs.{collect, is_expected, proofs_of}
use publisher.Sbcp.Window.{
  InWindow, IsWithin, IsBehind, period_started, timed_out, run, start_period_lem, run-InWindow,
}
use publisher.Sbcp.Aggregation.{collect_ready, collect_counts_stranger}
use publisher.Sbcp.Sequencer
use publisher.Sbcp.Sequencer.{
  SequencerState, Remote, new, begin_block, on_start_instance, low_sequence_number,
}
use publisher.Sbcp.Building
use publisher.Sbcp.Building.{IsBuilding, run-IsBuilding}
use publisher.Sbcp.Rollback.{rollback_refuses_first}

abbrev pub plain_sha : Bytes → Bytes
plain_sha b = b

-- Superblock 8 is to be proved; superblock 9 is being built.
abbrev pub sharing : PublisherState
sharing = record {
  period_id = 4;
  target_superblock_number = 9;
  last_finalized_superblock_number = 7;
  last_finalized_superblock_hash = 5 ∷ [];
  proofs = [];
  chain_set = 1 ∷ [];
  sequence_number = 0;
  active_chains = [];
  proof_window = 3;
}

abbrev pub pair : XtRequest
pair = record {
  transactions =
      record { chain_id = 1; transactions = (9 ∷ []) ∷ [] }
      ∷ record { chain_id = 2; transactions = (8 ∷ []) ∷ [] }
      ∷ [];
}

abbrev started : Instance
started = record {
  id = generate_instance_id plain_sha 4 1 pair;
  period_id = 4;
  sequence_number = 1;
  xt_request = pair;
}

start_period_lem_example :
    ((start_period sharing ≡ (
      record sharing { period_id = 4 + 1; target_superblock_number = 9 + 1; sequence_number = 0 },
      broadcast_start_period (4 + 1) (9 + 1) ∷ [],
      ok tt,
    ))
      × IsWithin sharing)
    ⊎ ((start_period sharing ≡ (sharing, [], err (cannot_start_period 9 (7 + 1))))
        × IsBehind sharing)
start_period_lem_example = start_period_lem sharing (omega arith) (omega arith) (omega arith)

run-InWindow_example : InWindow (run plain_sha sharing (period_started ∷ timed_out ∷ []))
run-InWindow_example =
    run-InWindow plain_sha sharing (period_started ∷ timed_out ∷ []) (inr (omega arith))

abbrev one_proof : List Bytes
one_proof = (6 ∷ []) ∷ []

abbrev pub settled_at_7 : SettledState
settled_at_7 = record {
  block_header = record { number = 30; block_hash = 1 ∷ []; state_root = 2 ∷ [] };
  superblock_number = 7;
  superblock_hash = 5 ∷ [];
}

collect_ready_example :
    (8 ≡ sharing.last_finalized_superblock_number + 1)
    × (8 < sharing.target_superblock_number)
    × ((3 + (sharing.target_superblock_number - 8)) % u64_mod ≡ sharing.period_id)
    × (settled_at_7.superblock_hash ≡ sharing.last_finalized_superblock_hash)
    × (length sharing.chain_set ≤ length one_proof)
unfolding collect is_expected proofs_of add64 sub64 get insert ℕ_discrete
collect_ready_example =
    collect_ready sharing 3 8 (6 ∷ []) 1 (5 ∷ []) one_proof (omega arith) (omega arith)
      (omega arith) refl

collect_counts_stranger_example :
    (collect sharing 3 8 (6 ∷ []) 77).1
    ≡ some (5 ∷ [], values (insert ℕ_discrete 77 (6 ∷ []) (proofs_of sharing 8)))
unfolding is_expected proofs_of add64 sub64 get contains ℕ_discrete
collect_counts_stranger_example =
    collect_counts_stranger sharing 3 8 (6 ∷ []) 77 refl refl refl (omega arith)

abbrev silent : Remote
silent = record { prove = λ h n. ok []; send = λ p n b. ok tt; forward = λ r. ok tt }

run-IsBuilding_example : IsBuilding (
    Building.run silent
      (new 4 9 settled_at_7)
      (Building.block_begun 31 ∷ Building.instance_started (3 ∷ []) 4 1 ∷ []))
run-IsBuilding_example =
    run-IsBuilding silent 4 9 settled_at_7
      (Building.block_begun 31 ∷ Building.instance_started (3 ∷ []) 4 1 ∷ [])

abbrev open_block : PendingBlock
open_block = record { number = 31; period_id = 4; superblock_number = 9 }

abbrev building : SequencerState
building = record {
  period_id = 4;
  target_superblock_number = 9;
  pending_block = some open_block;
  active_instance_id = none;
  last_sequence_number = some 2;
  head = 30;
  sealed_block_head = [];
  settled_state = settled_at_7;
}

abbrev sealed : BlockHeader
sealed = record { number = 31; block_hash = 4 ∷ []; state_root = 4 ∷ [] }

first_after : (start_instance plain_sha (Publisher.rollback sharing).0 pair).2 ≡ ok started
unfolding start_instance add64 contains ℕ_discrete get chains_from_request Publisher.rollback
first_after = refl

rollback_refuses_first_example :
    let after =
      (begin_block (Sequencer.rollback building 7 (5 ∷ []) sharing.period_id).0 (add64 30 1)).0 in
    (started.sequence_number ≡ 1)
    × (on_start_instance after started.id started.period_id started.sequence_number
        ≡ (after, err low_sequence_number))
unfolding Sequencer.rollback text_discrete
rollback_refuses_first_example =
    rollback_refuses_first plain_sha sharing pair started building 7 (5 ∷ [])
      settled_at_7.block_header 2 refl refl (omega arith) first_after
