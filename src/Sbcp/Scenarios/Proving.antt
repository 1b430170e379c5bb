-- ===== src/Sbcp/Scenarios/Proving.antt =====
-- crates/spec-sbcp/src/publisher.rs, `mod tests`: decisions, settlement and proofs.
use publisher.Base.{◌≡◌, refl, none, some, [], ◌∷◌, ℕ_discrete}
use publisher.Base.Lists.{contains}
use publisher.Base.Maps.{get, insert, remove}
use publisher.Base.Words.{add64, sub64}
use publisher.Base.Results.{ok, err}
use publisher.Spec.Primitives.{Bytes, Text, SuperblockHash, codes}
use publisher.Spec.Instance.{chains, chains_from_request}
use publisher.Sbcp.Publisher.{
  PublisherState, broadcast_start_period, broadcast_rollback, publish_proof, start_period,
  start_instance, decide_instance, advance_settled_state, proof_timeout, past_window,
  chain_not_active, old_settled_state, invalid_request,
}
use publisher.Sbcp.Proofs.{Prover, collect, receive_proof, is_expected}
use publisher.Sbcp.Scenarios.Blocks.{filled}
use publisher.Sbcp.Scenarios.Instances.{
  sha256, chain_req, make_xt_request, default_chain_set, new_publisher_for_test, on_chains,
  instance_of,
}

abbrev StartInstanceParticipantDedup : Type 0
StartInstanceParticipantDedup =
    let request =
      make_xt_request
        (chain_req 7 (codes "a" ∷ codes "b" ∷ []) ∷ chain_req 8 (codes "c" ∷ []) ∷ []) in
    let started =
      start_instance sha256 (new_publisher_for_test 2 2 2 (filled 1) 0 default_chain_set) request in
    (started.2 ≡ ok (instance_of 2 1 request)) × (chains (instance_of 2 1 request) ≡ 7 ∷ 8 ∷ [])

StartInstanceParticipantDedup_holds : StartInstanceParticipantDedup
unfolding start_instance add64 contains ℕ_discrete get chains_from_request
StartInstanceParticipantDedup_holds = (refl, refl)

abbrev SequenceMonotonicAndResetsPerPeriod : Type 0
SequenceMonotonicAndResetsPerPeriod =
    let q = new_publisher_for_test 10 9 9 (filled 1) 0 default_chain_set in
    let first = start_instance sha256 q (on_chains 1 2) in
    let second = start_instance sha256 first.0 (on_chains 3 4) in
    let period = start_period second.0 in
    let third = start_instance sha256 period.0 (on_chains 5 6) in
    (first.2 ≡ ok (instance_of 10 1 (on_chains 1 2)))
    × (second.2 ≡ ok (instance_of 10 2 (on_chains 3 4)))
    × (period.2 ≡ ok tt)
    × (period.1 ≡ broadcast_start_period 11 10 ∷ [])
    × (third.2 ≡ ok (instance_of 11 1 (on_chains 5 6)))

SequenceMonotonicAndResetsPerPeriod_holds : SequenceMonotonicAndResetsPerPeriod
unfolding start_instance start_period past_window add64 contains ℕ_discrete get insert
    chains_from_request
SequenceMonotonicAndResetsPerPeriod_holds = (refl, refl, refl, refl, refl)

abbrev StartInstancePopulatesInstanceFields : Type 0
StartInstancePopulatesInstanceFields =
    (start_instance sha256 (new_publisher_for_test 1 1 1 (filled 1) 0 default_chain_set)
      (on_chains 1 2)).2
    ≡ ok (instance_of 1 1 (on_chains 1 2))

StartInstancePopulatesInstanceFields_holds : StartInstancePopulatesInstanceFields
unfolding start_instance add64 contains ℕ_discrete get chains_from_request
StartInstancePopulatesInstanceFields_holds = refl

abbrev DecideInstanceClearsActiveAndValidates : Type 0
DecideInstanceClearsActiveAndValidates =
    let q = new_publisher_for_test 1 1 1 (filled 1) 0 default_chain_set in
    let i = instance_of 1 1 (on_chains 1 2) in
    let started = start_instance sha256 q (on_chains 1 2) in
    let decided = decide_instance started.0 i in
    let again = decide_instance decided.0 i in
    (started.2 ≡ ok i)
    × (decided.2 ≡ ok tt)
    × (again.2 ≡ err chain_not_active)
    × ((start_instance sha256 again.0 (on_chains 1 2)).2 ≡ ok (instance_of 1 2 (on_chains 1 2)))

DecideInstanceClearsActiveAndValidates_holds : DecideInstanceClearsActiveAndValidates
unfolding start_instance decide_instance add64 contains ℕ_discrete get insert remove
    chains_from_request
DecideInstanceClearsActiveAndValidates_holds = (refl, refl, refl, refl)

abbrev AdvanceSettledStateMonotonic : Type 0
AdvanceSettledStateMonotonic =
    let q = new_publisher_for_test 1 1 1 (filled 1) 0 default_chain_set in
    let first = advance_settled_state q 2 (filled 9) in
    (first.2 ≡ ok tt) × ((advance_settled_state first.0 2 (filled 8)).2 ≡ err old_settled_state)

AdvanceSettledStateMonotonic_holds : AdvanceSettledStateMonotonic
unfolding advance_settled_state
AdvanceSettledStateMonotonic_holds = (refl, refl)

abbrev ProofTimeoutRollsBackAndResetsTarget : Type 0
ProofTimeoutRollsBackAndResetsTarget =
    let q = new_publisher_for_test 3 5 5 (filled 7) 0 default_chain_set in
    let timed_out = proof_timeout (start_instance sha256 q (on_chains 1 2)).0 in
    (timed_out.1 ≡ broadcast_rollback 3 5 (filled 7) ∷ [])
    × (timed_out.0.target_superblock_number ≡ 6)

ProofTimeoutRollsBackAndResetsTarget_holds : ProofTimeoutRollsBackAndResetsTarget
unfolding start_instance proof_timeout add64 contains ℕ_discrete get chains_from_request
ProofTimeoutRollsBackAndResetsTarget_holds = (refl, refl)

abbrev StartInstanceInvalidRequests : Type 0
StartInstanceInvalidRequests =
    let q = new_publisher_for_test 1 1 1 (filled 1) 0 default_chain_set in
    ((start_instance sha256 q (make_xt_request [])).2 ≡ err invalid_request)
    × ((start_instance sha256 q (make_xt_request (chain_req 1 (codes "only" ∷ []) ∷ []))).2
        ≡ err invalid_request)

StartInstanceInvalidRequests_holds : StartInstanceInvalidRequests
unfolding start_instance
StartInstanceInvalidRequests_holds = (refl, refl)

-- `FakeProver` with a proof, and with an error.
abbrev proving : Bytes → Prover
proving network_proof = λ sb hash proofs. ok network_proof

abbrev failing : Text → Prover
failing e = λ sb hash proofs. err e

-- Two periods have been started; superblock 6 is the first.
abbrev two_periods : SuperblockHash → PublisherState
two_periods hash =
    (start_period (start_period (new_publisher_for_test 10 5 5 hash 0 (1 ∷ 2 ∷ []))).0).0

-- What the prover is called with is what `collect` hands over.
abbrev ReceiveProofAggregatesAndPublishes : Type 0
ReceiveProofAggregatesAndPublishes =
    let prover = proving (codes "network-proof") in
    let q = two_periods (filled 1) in
    let first = receive_proof prover q 11 6 (codes "proof-1") 1 in
    let second = receive_proof prover first.0 11 6 (codes "proof-2") 2 in
    ((collect q 11 6 (codes "proof-1") 1).1 ≡ none)
    × (first.1 ≡ [])
    × ((collect first.0 11 6 (codes "proof-2") 2).1
        ≡ some (filled 1, codes "proof-1" ∷ codes "proof-2" ∷ []))
    × (second.1 ≡ publish_proof 6 (codes "network-proof") ∷ [])
    × (get ℕ_discrete 6 second.0.proofs ≡ none)

ReceiveProofAggregatesAndPublishes_holds : ReceiveProofAggregatesAndPublishes
unfolding start_period past_window receive_proof collect is_expected add64 sub64 get insert remove
    ℕ_discrete
ReceiveProofAggregatesAndPublishes_holds = (refl, refl, refl, refl, refl)

abbrev ReceiveProofProverErrorTriggersRollback : Type 0
ReceiveProofProverErrorTriggersRollback =
    let prover = failing (codes "boom") in
    let first = receive_proof prover (two_periods (filled 9)) 11 6 (codes "proof-1") 1 in
    let second = receive_proof prover first.0 11 6 (codes "proof-2") 2 in
    (first.1 ≡ []) × (second.1 ≡ broadcast_rollback 12 5 (filled 9) ∷ [])

ReceiveProofProverErrorTriggersRollback_holds : ReceiveProofProverErrorTriggersRollback
unfolding start_period past_window receive_proof collect is_expected add64 sub64 get insert remove
    ℕ_discrete
ReceiveProofProverErrorTriggersRollback_holds = (refl, refl)

abbrev ReceiveProofIgnoresNonTerminatedSuperblock : Type 0
ReceiveProofIgnoresNonTerminatedSuperblock =
    let q = (start_period (new_publisher_for_test 5 4 4 (filled 3) 0 (1 ∷ 2 ∷ []))).0 in
    let received = receive_proof (proving []) q 6 5 (codes "proof") 1 in
    ((collect q 6 5 (codes "proof") 1).1 ≡ none)
    × (received.1 ≡ [])
    × (get ℕ_discrete 5 received.0.proofs ≡ none)

ReceiveProofIgnoresNonTerminatedSuperblock_holds : ReceiveProofIgnoresNonTerminatedSuperblock
unfolding start_period past_window receive_proof collect is_expected add64 sub64 get insert
    ℕ_discrete
ReceiveProofIgnoresNonTerminatedSuperblock_holds = (refl, refl, refl)
