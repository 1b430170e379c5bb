-- ===== src/Sbcp/Scenarios/Instances.antt =====
-- crates/spec-sbcp/src/publisher.rs, `mod tests`: periods and instances of the publisher.
use publisher.Base.{ℕ, ◌≡◌, refl, List, [], ◌∷◌, ◌++◌, ℕ_discrete}
use publisher.Base.Lists.{contains}
use publisher.Base.Maps.{get, insert}
use publisher.Base.Words.{add64}
use publisher.Base.Results.{ok, err}
use publisher.Spec.Primitives.{
  Bytes, Text, ChainId, PeriodId, SequenceNumber, SuperblockNumber, SuperblockHash, codes,
}
use publisher.Spec.Instance.{TransactionRequest, XtRequest, Instance, chains, chains_from_request}
use publisher.Sbcp.Id.{generate_instance_id}
use publisher.Sbcp.Publisher.{
  PublisherState, broadcast_start_period, new, start_period, start_instance, past_window,
  invalid_initial_state, cannot_start_period, cannot_start_instance,
}
use publisher.Sbcp.Scenarios.Blocks.{filled}

-- The hash function is of no matter to the tests.
abbrev pub sha256 : Bytes → Bytes
sha256 b = b

abbrev pub chain_req : ChainId → List Text → TransactionRequest
chain_req chain txs = record { chain_id = chain; transactions = txs }

abbrev pub make_xt_request : List TransactionRequest → XtRequest
make_xt_request entries = record { transactions = entries }

abbrev pub default_chain_set : List ChainId
default_chain_set = 1 ∷ 2 ∷ 3 ∷ 4 ∷ 5 ∷ 6 ∷ 7 ∷ 8 ∷ 9 ∷ 10 ∷ []

-- What `new` makes of arguments that it accepts.
abbrev pub new_publisher_for_test :
    PeriodId
    → SuperblockNumber
    → SuperblockNumber
    → SuperblockHash
    → ℕ
    → List ChainId
    → PublisherState
new_publisher_for_test period target finalized hash window chain_set = record {
  period_id = period;
  target_superblock_number = target;
  last_finalized_superblock_number = finalized;
  last_finalized_superblock_hash = hash;
  proofs = [];
  chain_set = chain_set;
  sequence_number = 0;
  active_chains = [];
  proof_window = window;
}

new_publisher_accepted :
    new 4 10 7 (filled 5) 0 default_chain_set
    ≡ ok (new_publisher_for_test 4 10 7 (filled 5) 0 default_chain_set)
unfolding new
new_publisher_accepted = refl

-- A request with one transaction on each of two chains.
abbrev pub on_chains : ChainId → ChainId → XtRequest
on_chains c d = make_xt_request (chain_req c (codes "a" ∷ []) ∷ chain_req d (codes "b" ∷ []) ∷ [])

abbrev pub instance_of : PeriodId → SequenceNumber → XtRequest → Instance
instance_of period seq request = record {
  id = generate_instance_id sha256 period seq request;
  period_id = period;
  sequence_number = seq;
  xt_request = request;
}

abbrev RejectsTargetLowerThanFinalized : Type 0
RejectsTargetLowerThanFinalized =
    new 3 4 5 (filled 1) 0 default_chain_set ≡ err invalid_initial_state

RejectsTargetLowerThanFinalized_holds : RejectsTargetLowerThanFinalized
unfolding new
RejectsTargetLowerThanFinalized_holds = refl

abbrev StartPeriodRespectsExplicitTarget : Type 0
StartPeriodRespectsExplicitTarget =
    let started = start_period (new_publisher_for_test 4 10 7 (filled 5) 0 default_chain_set) in
    (started.2 ≡ ok tt)
    × (started.1 ≡ broadcast_start_period 5 11 ∷ [])
    × (started.0.target_superblock_number ≡ 11)

StartPeriodRespectsExplicitTarget_holds : StartPeriodRespectsExplicitTarget
unfolding start_period past_window add64
StartPeriodRespectsExplicitTarget_holds = (refl, refl, refl)

abbrev StartPeriodRejectsInitialTargetPastWindow : Type 0
StartPeriodRejectsInitialTargetPastWindow =
    let started = start_period (new_publisher_for_test 2 12 5 (filled 3) 1 default_chain_set) in
    (started.2 ≡ err (cannot_start_period 12 6)) × (started.1 ≡ [])

StartPeriodRejectsInitialTargetPastWindow_holds : StartPeriodRejectsInitialTargetPastWindow
unfolding start_period past_window add64
StartPeriodRejectsInitialTargetPastWindow_holds = (refl, refl)

abbrev StartPeriodBasicBroadcastAndReset : Type 0
StartPeriodBasicBroadcastAndReset =
    let started = start_period (new_publisher_for_test 9 7 7 (filled 9) 0 default_chain_set) in
    (started.2 ≡ ok tt) × (started.1 ≡ broadcast_start_period 10 8 ∷ [])

StartPeriodBasicBroadcastAndReset_holds : StartPeriodBasicBroadcastAndReset
unfolding start_period past_window add64
StartPeriodBasicBroadcastAndReset_holds = (refl, refl)

abbrev StartPeriodErrorWhenTargetExceedsProofWindow : Type 0
StartPeriodErrorWhenTargetExceedsProofWindow =
    let first = start_period (new_publisher_for_test 5 7 7 (filled 1) 1 default_chain_set) in
    let second = start_period first.0 in
    let third = start_period second.0 in
    (first.2 ≡ ok tt)
    × (second.2 ≡ ok tt)
    × (third.2 ≡ err (cannot_start_period 9 8))
    × (first.1 ++ second.1 ++ third.1
        ≡ broadcast_start_period 6 8 ∷ broadcast_start_period 7 9 ∷ [])

StartPeriodErrorWhenTargetExceedsProofWindow_holds : StartPeriodErrorWhenTargetExceedsProofWindow
unfolding start_period past_window add64
StartPeriodErrorWhenTargetExceedsProofWindow_holds = (refl, refl, refl, refl)

abbrev StartPeriodNoWindowConstraintWhenDisabled : Type 0
StartPeriodNoWindowConstraintWhenDisabled =
    let first = start_period (new_publisher_for_test 5 7 7 (filled 1) 0 default_chain_set) in
    let second = start_period first.0 in
    let third = start_period second.0 in (first.2 ≡ ok tt) × (second.2 ≡ ok tt) × (third.2 ≡ ok tt)

StartPeriodNoWindowConstraintWhenDisabled_holds : StartPeriodNoWindowConstraintWhenDisabled
unfolding start_period past_window add64
StartPeriodNoWindowConstraintWhenDisabled_holds = (refl, refl, refl)

abbrev StartInstanceDisjointSetsAllowed : Type 0
StartInstanceDisjointSetsAllowed =
    let first =
      start_instance sha256 (new_publisher_for_test 5 5 5 (filled 1) 0 default_chain_set)
        (on_chains 1 2) in
    let second = start_instance sha256 first.0 (on_chains 3 4) in
    (first.2 ≡ ok (instance_of 5 1 (on_chains 1 2)))
    × (chains (instance_of 5 1 (on_chains 1 2)) ≡ 1 ∷ 2 ∷ [])
    × (second.2 ≡ ok (instance_of 5 2 (on_chains 3 4)))
    × (chains (instance_of 5 2 (on_chains 3 4)) ≡ 3 ∷ 4 ∷ [])

StartInstanceDisjointSetsAllowed_holds : StartInstanceDisjointSetsAllowed
unfolding start_instance add64 contains ℕ_discrete get insert chains_from_request
StartInstanceDisjointSetsAllowed_holds = (refl, refl, refl, refl)

abbrev StartInstanceConflictingSetRejected : Type 0
StartInstanceConflictingSetRejected =
    let first =
      start_instance sha256 (new_publisher_for_test 5 5 5 (filled 1) 0 default_chain_set)
        (on_chains 1 2) in
    (first.2 ≡ ok (instance_of 5 1 (on_chains 1 2)))
    × ((start_instance sha256 first.0 (on_chains 2 3)).2 ≡ err cannot_start_instance)

StartInstanceConflictingSetRejected_holds : StartInstanceConflictingSetRejected
unfolding start_instance add64 contains ℕ_discrete get insert chains_from_request
StartInstanceConflictingSetRejected_holds = (refl, refl)
