-- ===== src/Sbcp/Aggregation.antt =====
-- When the publisher aggregates the proofs of a superblock.
use publisher.Base.{
  ℕ, suc, ◌+◌, ◌-◌, ◌%◌, ◌≤◌, ◌<◌, ◌≡◌, refl, ap, true, false, not, ◌&&◌, inl, inr, none, some,
  List, [], ◌∷◌, arith, ℕ_discrete,
}
use publisher.Base.Tests.{Bool-cases, Option-cases}
use publisher.Base.Lists.{length, contains}
use publisher.Base.Maps.{get, contains_key, insert, values, length-insert, insert_same}
use publisher.Base.Words.{u64_mod, sub64, add64_exact, sub64_exact}
use publisher.Spec.Primitives.{Bytes, ChainId, PeriodId, SuperblockNumber, SuperblockHash}
use publisher.Sbcp.Publisher.{PublisherState}
use publisher.Sbcp.Proofs.{proofs_of, is_expected, collect}

length-values {ℓ} : {K V : Type ℓ} (m : List (K × V)) → length (values m) ≡ length m
length-values [] = refl
length-values (e ∷ m) = ap suc (length-values m)

-- Going back and forth by a number of periods.
add64_sub64 : (a d : ℕ) → a < u64_mod → d < u64_mod → (sub64 a d + d) % u64_mod ≡ a
unfolding sub64
add64_sub64 a d small below = omega arith

-- The period of a superblock lies as far back as the superblock does.
is_expected_facts :
    (s : PublisherState) (period_id : PeriodId) (sb : SuperblockNumber)
    → s.last_finalized_superblock_number + 1 < u64_mod
    → s.target_superblock_number < u64_mod
    → s.period_id < u64_mod
    → is_expected s period_id sb ≡ true
    → (sb ≡ s.last_finalized_superblock_number + 1)
      × (sb < s.target_superblock_number)
      × ((period_id + (s.target_superblock_number - sb)) % u64_mod ≡ s.period_id)
unfolding is_expected
is_expected_facts s period_id sb small target period e = ground (
  arith,
  add64_exact s.last_finalized_superblock_number 1,
  sub64_exact s.target_superblock_number sb,
  add64_sub64 s.period_id (s.target_superblock_number - sb),
)

-- For numbers within `u64`, where the last finalized one is not the last of them, the prover is
-- asked only for the superblock after the last finalized one, below the target, of the period that
-- is as far before the current one, modulo 2^64, as the superblock is before the target, with the
-- last finalized hash and no fewer proofs than there are chains.
pub collect_ready :
    (s : PublisherState) (period_id : PeriodId) (sb : SuperblockNumber) (proof : Bytes)
    (chain_id : ChainId) (hash : SuperblockHash) (ps : List Bytes)
    → s.last_finalized_superblock_number + 1 < u64_mod
    → s.target_superblock_number < u64_mod
    → s.period_id < u64_mod
    → (collect s period_id sb proof chain_id).1 ≡ some (hash, ps)
    → (sb ≡ s.last_finalized_superblock_number + 1)
      × (sb < s.target_superblock_number)
      × ((period_id + (s.target_superblock_number - sb)) % u64_mod ≡ s.period_id)
      × (hash ≡ s.last_finalized_superblock_hash)
      × (length s.chain_set ≤ length ps)
unfolding collect
collect_ready s period_id sb proof chain_id hash ps small target period e = ground (
  arith,
  is_expected_facts s period_id sb,
  length-values (insert ℕ_discrete chain_id proof (proofs_of s sb)),
)

-- `or_default` adds no entry where a chain's proof is there already.
reopen :
    (s : PublisherState) (sb : SuperblockNumber) (chain_id : ChainId)
    → contains_key ℕ_discrete chain_id (proofs_of s sb) ≡ true
    → insert ℕ_discrete sb (proofs_of s sb) s.proofs ≡ s.proofs
unfolding proofs_of get
reopen s sb chain_id h = elim (Option-cases (get ℕ_discrete sb s.proofs)) [
  | inl fresh ↦ ground arith
  | inr (m, e) ↦ insert_same ℕ_discrete sb _ s.proofs (ground arith)
]

-- A proof that is not expected, or that its chain has sent before, changes nothing.
collect_ignored :
    (s : PublisherState) (period_id : PeriodId) (sb : SuperblockNumber) (proof : Bytes)
    (chain_id : ChainId)
    → (is_expected s period_id sb && not (contains_key ℕ_discrete chain_id (proofs_of s sb)))
      ≡ false
    → collect s period_id sb proof chain_id ≡ (s, none)
unfolding collect
collect_ignored s period_id sb proof chain_id h = elim (Bool-cases (is_expected s period_id sb)) [
  | inr unexpected ↦ rw unexpected
  | inl expected ↦
      let again : contains_key ℕ_discrete chain_id (proofs_of s sb) ≡ true = ground arith in
      rw expected (rw again (λ i. (record s { proofs = reopen s sb chain_id again i }, none)))
]

-- An expected proof of a chain outside the chain set completes a superblock that lacks one proof,
-- and is aggregated with the others.
pub collect_counts_stranger :
    (s : PublisherState) (period_id : PeriodId) (sb : SuperblockNumber) (proof : Bytes)
    (chain_id : ChainId)
    → contains ℕ_discrete s.chain_set chain_id ≡ false
    → is_expected s period_id sb ≡ true
    → get ℕ_discrete chain_id (proofs_of s sb) ≡ none
    → length s.chain_set ≤ suc (length (proofs_of s sb))
    → (collect s period_id sb proof chain_id).1
      ≡ some (
        s.last_finalized_superblock_hash,
        values (insert ℕ_discrete chain_id proof (proofs_of s sb)),
      )
unfolding collect
collect_counts_stranger s period_id sb proof chain_id out expected first few =
    ground (arith, length-insert ℕ_discrete chain_id proof (proofs_of s sb))
