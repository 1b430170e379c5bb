-- ===== src/Sbcp/Settling.antt =====
-- crates/spec-sbcp/src/sequencer.rs: which block the end of a block settles.
use publisher.Base.{
  ◌+◌, ◌-◌, ◌≤◌, ◌<◌, ◌≡◌, ◌⊎◌, refl, ap, ◌∙◌, inl, inr, Option, none, some, List, [], ◌∷◌, arith,
  ℕ_discrete,
}
use publisher.Base.Maps.{get, insert, get-insert}
use publisher.Base.Words.{sub64, u64_mod, sub64_exact}
use publisher.Base.Results.{Result, ok, err}
use publisher.Spec.Primitives.{Bytes, PeriodId, SuperblockNumber, Text}
use publisher.Sbcp.Block.{PendingBlock, BlockHeader, SealedBlockHeader}
use publisher.Sbcp.Sequencer.{
  SequencerState, Remote, Call, request_proofs, header_of, send_proved, start_settlement, end_on,
  end_block,
}

abbrev pub first_call : List Call → Option Call
first_call [] = none
first_call (call ∷ calls) = some call

-- Whatever the prover answers, it is asked first, for the header that is known of the period.
settlement_asks :
    (remote : Remote) (s : SequencerState) (period : PeriodId) (number : SuperblockNumber)
    → first_call (start_settlement remote s period number).0
      ≡ some (request_proofs (header_of (get ℕ_discrete period s.sealed_block_head)) number)
unfolding start_settlement
settlement_asks remote s period number =
    asks (request_proofs (header_of (get ℕ_discrete period s.sealed_block_head)) number)
      (remote.prove (header_of (get ℕ_discrete period s.sealed_block_head)) number)
  where
    asks :
        (asked : Call) (answer : Result Text Bytes)
        → first_call (send_proved remote asked period number answer).0 ≡ some asked
    asks asked (ok proof) = refl
    asks asked (err e) = refl

-- The sealed blocks once a block of a period is sealed.
abbrev sealed_with :
    SequencerState → PendingBlock → BlockHeader → List (PeriodId × SealedBlockHeader)
sealed_with s p b =
    insert ℕ_discrete p.period_id
      (record {
        block_header = b;
        period_id = p.period_id;
        superblock_number = p.superblock_number;
      })
      s.sealed_block_head

end_on_asks :
    (remote : Remote) (s : SequencerState) (p : PendingBlock) (b : BlockHeader)
    → p.number ≡ b.number
    → s.active_instance_id ≡ none
    → p.period_id < s.period_id
    → first_call (end_on remote s (some p) b).1
      ≡ some (
          request_proofs
            (header_of (get ℕ_discrete (sub64 s.period_id 1) (sealed_with s p b)))
            (sub64 s.target_superblock_number 1))
unfolding end_on
end_on_asks remote s p b n a late = ground (
  arith,
  settlement_asks remote
      (record s { pending_block = none; head = b.number; sealed_block_head = sealed_with s p b })
      (sub64 s.period_id 1) (sub64 s.target_superblock_number 1),
)

get-sealed_with :
    (s : SequencerState) (p : PendingBlock) (b : BlockHeader)
    → get ℕ_discrete (s.period_id - 1) s.sealed_block_head ≡ none
    → p.period_id < s.period_id
    → ((s.period_id ≡ p.period_id + 1)
        × (header_of (get ℕ_discrete (s.period_id - 1) (sealed_with s p b)) ≡ some b))
      ⊎ ((p.period_id + 1 < s.period_id)
          × (header_of (get ℕ_discrete (s.period_id - 1) (sealed_with s p b)) ≡ none))
get-sealed_with s p b free late = ground (
  arith,
  get-insert ℕ_discrete p.period_id (s.period_id - 1)
      (record {
        block_header = b;
        period_id = p.period_id;
        superblock_number = p.superblock_number;
      })
      s.sealed_block_head,
)

-- Numbers within `u64`: a block that stays open into a later period, where none is sealed of the
-- period before the current one: at its end the prover is asked for the superblock before the
-- target, about the block if the current period is the next after that of the block, and about no
-- block if it is a later one, and then the block is not settled.
pub end_block_settles :
    (remote : Remote) (s : SequencerState) (p : PendingBlock) (b : BlockHeader)
    → s.pending_block ≡ some p
    → p.number ≡ b.number
    → s.active_instance_id ≡ none
    → get ℕ_discrete (s.period_id - 1) s.sealed_block_head ≡ none
    → p.period_id < s.period_id
    → s.period_id < u64_mod
    → 1 ≤ s.target_superblock_number
    → s.target_superblock_number < u64_mod
    → ((s.period_id ≡ p.period_id + 1)
        × (first_call (end_block remote s b).1
            ≡ some (request_proofs (some b) (s.target_superblock_number - 1))))
      ⊎ ((p.period_id + 1 < s.period_id)
          × (first_call (end_block remote s b).1
              ≡ some (request_proofs none (s.target_superblock_number - 1))))
unfolding end_block
end_block_settles remote s p b e n a free late small one fits =
    let asked : first_call (end_on remote s s.pending_block b).1
        ≡ some (
            request_proofs (header_of (get ℕ_discrete (s.period_id - 1) (sealed_with s p b)))
              (s.target_superblock_number - 1)) =
      ap (λ o. first_call (end_on remote s o b).1) e
      ∙ end_on_asks remote s p b n a late
      ∙ ap
          (λ q. some (
            request_proofs (header_of (get ℕ_discrete q (sealed_with s p b)))
              (sub64 s.target_superblock_number 1)))
          (sub64_exact s.period_id 1 small (omega arith))
      ∙ ap
          (λ m.
            some
              (request_proofs (header_of (get ℕ_discrete (s.period_id - 1) (sealed_with s p b))) m))
          (sub64_exact s.target_superblock_number 1 fits one) in
    elim (get-sealed_with s p b free late) [
      | inl (next, known) ↦
          inl
            (next, asked ∙ ap (λ h. some (request_proofs h (s.target_superblock_number - 1))) known)
      | inr (later, unknown) ↦ inr (
        later,
        asked ∙ ap (λ h. some (request_proofs h (s.target_superblock_number - 1))) unknown,
      )
    ]
