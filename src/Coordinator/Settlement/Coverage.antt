-- ===== src/Coordinator/Settlement/Coverage.antt =====
-- crates/coordinator/src/coordinator.rs: which chains a submission covers.
use publisher.Base.{
  ℕ, suc, ◌≤◌, ◌≡◌, refl, ap, subst, ◌∙◌, true, inl, inr, some, List, [], ◌∷◌, map, arith,
  ℕ_discrete,
}
use publisher.Base.Tests.{Bool-cases}
use publisher.Base.Lists.{length, contains, length-le}
use publisher.Base.Maps.{
  get, insert, keys, IsMap, contains_key, contains-keys, get-insert, insert-IsMap,
}
use publisher.Coordinator.ProofTypes.{ProofData}
use publisher.Coordinator.State.{ChainProof, CoordinatorState}
use publisher.Coordinator.Settlement.{collect_proof}

-- The chains of one map are chains of the other.
abbrev pub IsPart : {V W : Type 0} → List (ℕ × V) → List (ℕ × W) → Type 0
IsPart m n = (a : ℕ) → contains_key ℕ_discrete a m ≡ true → contains_key ℕ_discrete a n ≡ true

length-keys : {V : Type 0} (m : List (ℕ × V)) → length (keys m) ≡ length m
length-keys [] = refl
length-keys (e ∷ m) = ap suc (length-keys m)

with_one :
    {V W : Type 0} (m : List (ℕ × V)) (n : List (ℕ × W)) (c : ℕ)
    → IsPart m n
    → contains_key ℕ_discrete c n ≡ true
    → (a : ℕ) → contains ℕ_discrete (c ∷ keys m) a ≡ true
    → contains_key ℕ_discrete a n ≡ true
unfolding contains
with_one m n c part h a e = elim (ℕ_discrete c a) [
  | yes p ↦ subst (λ k. contains_key ℕ_discrete k n ≡ true) p h
  | no p ↦ part a (ground (arith, contains-keys ℕ_discrete a m))
]

-- A part that is no shorter is the whole.
IsPart-whole :
    {V W : Type 0} (m : List (ℕ × V)) (n : List (ℕ × W))
    → IsMap ℕ_discrete m
    → IsPart m n
    → length n ≤ length m
    → IsPart n m
IsPart-whole m n d part long c h = elim (Bool-cases (contains_key ℕ_discrete c m)) [
  | inl there ↦ there
  | inr absent ↦
      let more =
        length-le ℕ_discrete (c ∷ keys m) (keys n) (contains-keys ℕ_discrete c m ∙ absent, d)
          (λ a e. contains-keys ℕ_discrete a n ∙ with_one m n c part h a e) in
      ground (arith, length-keys m, length-keys n)
]

insert-IsPart :
    {V W : Type 0} (k : ℕ) (v : V) (m : List (ℕ × V)) (n : List (ℕ × W))
    → IsPart m n
    → contains_key ℕ_discrete k n ≡ true
    → IsPart (insert ℕ_discrete k v m) n
insert-IsPart k v m n part h a e = ground (arith, get-insert ℕ_discrete k a v m, part a)

unfoldable sent : List (ℕ × ChainProof) → List (ℕ × ProofData)
sent m = map (λ e. (e.0, e.1.proof_data)) m

contains-sent :
    (k : ℕ) (m : List (ℕ × ChainProof))
    → contains_key ℕ_discrete k (sent m) ≡ contains_key ℕ_discrete k m
unfolding get sent
contains-sent k [] = refl
contains-sent k ((i, w) ∷ m) = ground (arith, contains-sent k m)

handed_over :
    (s : CoordinatorState) (n chain : ℕ) (proof : ProofData) (now sb : ℕ)
    (proofs : List (ℕ × ProofData)) (stored : List (ℕ × ChainProof))
    → insert ℕ_discrete chain
        (record { superblock_number = n; proof_data = proof })
        s.pending_proofs
      ≡ stored
    → (collect_proof s n chain proof now).1 ≡ some (sb, proofs)
    → (sb ≡ s.next_superblock_number)
      × (proofs ≡ sent stored)
      × (length s.chain_to_client ≤ length stored)
unfolding collect_proof sent
handed_over s n chain proof now sb proofs stored h e = ground arith

-- Where the proofs held are of registered chains, once each, and the one received is of a
-- registered chain, what is handed to the submission has the number of the next superblock and a
-- proof of every registered chain.
pub collect_proof-covers :
    (s : CoordinatorState) (n chain : ℕ) (proof : ProofData) (now sb : ℕ)
    (proofs : List (ℕ × ProofData))
    → IsMap ℕ_discrete s.pending_proofs
    → IsPart s.pending_proofs s.chain_to_client
    → contains_key ℕ_discrete chain s.chain_to_client ≡ true
    → (collect_proof s n chain proof now).1 ≡ some (sb, proofs)
    → (sb ≡ s.next_superblock_number) × IsPart s.chain_to_client proofs
collect_proof-covers s n chain proof now sb proofs d part known e =
    let entry : ChainProof = record { superblock_number = n; proof_data = proof } in
    let stored = insert ℕ_discrete chain entry s.pending_proofs in
    let (number, same, enough) = handed_over s n chain proof now sb proofs stored refl e in
    (
      number,
      λ c h.
          ap (contains_key ℕ_discrete c) same
          ∙ contains-sent c stored
          ∙ IsPart-whole stored s.chain_to_client
              (insert-IsMap ℕ_discrete chain entry s.pending_proofs d)
              (insert-IsPart chain entry s.pending_proofs s.chain_to_client part known) enough c h,
    )
