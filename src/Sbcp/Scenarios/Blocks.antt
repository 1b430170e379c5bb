-- ===== src/Sbcp/Scenarios/Blocks.antt =====
-- crates/spec-sbcp/src/sequencer.rs, `mod tests`: the sequencer's blocks and instances.
use publisher.Base.{ℕ, ◌≡◌, refl, true, false, none, some, [], ◌∷◌, ℕ_discrete}
use publisher.Base.Maps.{get, insert}
use publisher.Base.Words.{add64}
use publisher.Base.Results.{ok, err}
use publisher.Spec.Primitives.{Bytes, text_discrete}
use publisher.Sbcp.Block.{BlockHeader, SettledState, BlockNumber}
use publisher.Sbcp.Sequencer.{
  Remote, new, begin_block, can_include_local_tx, on_start_instance, on_decided_instance, end_block,
  is_low, block_already_open, block_not_sequential, block_seal_mismatch, no_pending_block,
  active_instance_exists, active_instance_mismatch, no_active_instance, period_id_mismatch,
  low_sequence_number,
}

-- `[b; 32]` of a hash and of an id.
abbrev pub filled : ℕ → Bytes
filled b =
    b ∷ b ∷ b ∷ b ∷ b ∷ b ∷ b ∷ b ∷ b ∷ b ∷ b ∷ b ∷ b ∷ b ∷ b ∷ b ∷ b ∷ b ∷ b ∷ b ∷ b ∷ b ∷ b ∷ b
    ∷ b ∷ b ∷ b ∷ b ∷ b ∷ b ∷ b ∷ b ∷ []

abbrev pub mk_header : BlockNumber → BlockHeader
mk_header n = record { number = n; block_hash = filled 0; state_root = filled 0 }

abbrev pub mk_settled : ℕ → BlockNumber → SettledState
mk_settled sb head = record {
  block_header = mk_header head;
  superblock_number = sb;
  superblock_hash = filled 1;
}

-- `FakeSeqProver` and `FakeSeqMessenger`: what they record is the list of calls.
abbrev pub answering : Bytes → Remote
answering next_proof = record {
  prove = λ header sb. ok next_proof;
  send = λ period sb proof. ok tt;
  forward = λ request. ok tt;
}

abbrev NewSequencerInitialState : Type 0
NewSequencerInitialState =
    let s = new 10 11 (mk_settled 4 100) in
    (s.period_id ≡ 10)
    × (s.target_superblock_number ≡ 11)
    × (s.head ≡ 100)
    × (s.pending_block ≡ none)
    × (s.active_instance_id ≡ none)

NewSequencerInitialState_holds : NewSequencerInitialState
unfolding new
NewSequencerInitialState_holds = (refl, refl, refl, refl, refl)

abbrev BeginBlockOkAndErrors : Type 0
BeginBlockOkAndErrors =
    let begun = begin_block (new 5 6 (mk_settled 3 10)) 11 in
    let again = begin_block begun.0 12 in
    let sealed = end_block (answering []) again.0 (mk_header 11) in
    let late = begin_block sealed.0 13 in
    (begun.1 ≡ ok tt)
    × (begun.0.pending_block ≡ some (record { number = 11; period_id = 5; superblock_number = 6 }))
    × (again.1 ≡ err block_already_open)
    × (sealed.2 ≡ ok tt)
    × (late.1 ≡ err block_not_sequential)

BeginBlockOkAndErrors_holds : BeginBlockOkAndErrors
unfolding new begin_block end_block add64
BeginBlockOkAndErrors_holds = (refl, refl, refl, refl, refl)

abbrev CanIncludeLocalTxAndInstanceHooks : Type 0
CanIncludeLocalTxAndInstanceHooks =
    let s = new 7 8 (mk_settled 2 20) in
    let begun = (begin_block s 21).0 in
    let id = filled 1 in
    let started = on_start_instance begun id 7 1 in
    let wrong = on_decided_instance started.0 (filled 2) in
    let decided = on_decided_instance wrong.0 id in
    (can_include_local_tx s ≡ err no_pending_block)
    × (can_include_local_tx begun ≡ ok true)
    × (started.1 ≡ ok tt)
    × (can_include_local_tx started.0 ≡ ok false)
    × (wrong.1 ≡ err active_instance_mismatch)
    × (decided.1 ≡ ok tt)
    × (can_include_local_tx decided.0 ≡ ok true)
    × ((on_decided_instance decided.0 id).1 ≡ err no_active_instance)

CanIncludeLocalTxAndInstanceHooks_holds : CanIncludeLocalTxAndInstanceHooks
unfolding new begin_block can_include_local_tx on_start_instance on_decided_instance add64
    text_discrete
CanIncludeLocalTxAndInstanceHooks_holds = (refl, refl, refl, refl, refl, refl, refl, refl)

abbrev EndBlockSealsAndUpdatesHead : Type 0
EndBlockSealsAndUpdatesHead =
    let s = (begin_block (new 3 4 (mk_settled 1 30)) 31).0 in
    let mismatch = end_block (answering []) s (mk_header 32) in
    let sealed = end_block (answering []) mismatch.0 (mk_header 31) in
    (mismatch.2 ≡ err block_seal_mismatch)
    × (sealed.2 ≡ ok tt)
    × (sealed.0.pending_block ≡ none)
    × (sealed.0.head ≡ 31)
    × (get ℕ_discrete 3 sealed.0.sealed_block_head
        ≡ some (record { block_header = mk_header 31; period_id = 3; superblock_number = 4 }))

EndBlockSealsAndUpdatesHead_holds : EndBlockSealsAndUpdatesHead
unfolding new begin_block end_block add64 get insert ℕ_discrete
EndBlockSealsAndUpdatesHead_holds = (refl, refl, refl, refl, refl)

abbrev EndBlockRejectsActiveInstance : Type 0
EndBlockRejectsActiveInstance =
    let s = (begin_block (new 3 4 (mk_settled 1 30)) 31).0 in
    let id = filled 9 in
    let started = on_start_instance s id 3 1 in
    let refused = end_block (answering []) started.0 (mk_header 31) in
    let decided = on_decided_instance refused.0 id in
    (started.1 ≡ ok tt)
    × (refused.2 ≡ err active_instance_exists)
    × (decided.1 ≡ ok tt)
    × ((end_block (answering []) decided.0 (mk_header 31)).2 ≡ ok tt)

EndBlockRejectsActiveInstance_holds : EndBlockRejectsActiveInstance
unfolding new begin_block end_block on_start_instance on_decided_instance add64 text_discrete
EndBlockRejectsActiveInstance_holds = (refl, refl, refl, refl)

abbrev OnStartInstanceValidations : Type 0
OnStartInstanceValidations =
    let closed = new 3 4 (mk_settled 1 30) in
    let higher = (begin_block (new 5 6 (mk_settled 2 40)) 41).0 in
    let lower = (begin_block (new 7 8 (mk_settled 3 50)) 51).0 in
    let begun = (begin_block (new 9 10 (mk_settled 4 60)) 61).0 in
    let first = on_start_instance begun (filled 4) 9 1 in
    let active = on_start_instance first.0 (filled 5) 9 1 in
    let decided = on_decided_instance active.0 (filled 4) in
    let same = on_start_instance decided.0 (filled 6) 9 1 in
    let next = on_start_instance same.0 (filled 7) 9 2 in
    let again = on_decided_instance next.0 (filled 7) in
    ((on_start_instance closed (filled 1) 3 1).1 ≡ err no_pending_block)
    × ((on_start_instance higher (filled 2) 6 1).1 ≡ err period_id_mismatch)
    × ((on_start_instance lower (filled 3) 6 1).1 ≡ err period_id_mismatch)
    × (first.1 ≡ ok tt)
    × (active.1 ≡ err active_instance_exists)
    × (decided.1 ≡ ok tt)
    × (same.1 ≡ err low_sequence_number)
    × (next.1 ≡ ok tt)
    × (again.1 ≡ ok tt)
    × ((on_start_instance again.0 (filled 6) 9 1).1 ≡ err low_sequence_number)

OnStartInstanceValidations_holds : OnStartInstanceValidations
unfolding new begin_block on_start_instance on_decided_instance is_low add64 text_discrete
OnStartInstanceValidations_holds = (refl, refl, refl, refl, refl, refl, refl, refl, refl, refl)
