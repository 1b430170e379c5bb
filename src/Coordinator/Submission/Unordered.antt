-- ===== src/Coordinator/Submission/Unordered.antt =====
-- crates/coordinator/src/l1_submit.rs: the proofs without an order, as the proof map has them. The
-- comment of `submit` notes that the order of the map is not stable.
use mathlib.Core.List.{Permᴰ}
use mathlib.Core.Quot
use mathlib.Core.Quot.{Quot}
use native.Mathlib.Nat.{ℕ_set}
use publisher.Base.{ℕ, ◌≡◌, refl, ap, List}
use publisher.Spec.Primitives.{Bytes}
use publisher.Coordinator.ProofTypes.{B256, ProofData}
use publisher.Coordinator.Submission.{Encoding, Proposal, propose}
use publisher.Coordinator.Submission.Order.{IsKeyed, propose-perm}

abbrev KeyedProofs : Type 0
KeyedProofs = (ps : List ProofData) × IsKeyed ps

abbrev IsReordered : KeyedProofs → KeyedProofs → Type 0
IsReordered a b = Permᴰ a.0 b.0

abbrev pub ProofMap : Type 0
ProofMap = Quot IsReordered

bytes_set : (xs ys : Bytes) (p q : xs ≡ ys) → p ≡ q
bytes_set = hlevel

module _ (enc : Encoding) (parent : B256) (superblock_number : ℕ) where
  -- The proposal of the list that a map is given as.
  abbrev proposal_of : KeyedProofs → Proposal
  proposal_of a = propose enc parent superblock_number a.0

  proposal_of-IsReordered : (a b : KeyedProofs) → IsReordered a b → proposal_of a ≡ proposal_of b
  proposal_of-IsReordered a b d = propose-perm enc parent superblock_number a.0 b.0 d a.1

  propose_map : ProofMap → Proposal
  propose_map m = record {
    output_root =
        Quot.lift ℕ_set (λ a. (proposal_of a).output_root)
          (λ a b d. ap (λ p. p.output_root) (proposal_of-IsReordered a b d)) m;
    l1_hash =
        Quot.lift ℕ_set (λ a. (proposal_of a).l1_hash)
          (λ a b d. ap (λ p. p.l1_hash) (proposal_of-IsReordered a b d)) m;
    extra_data =
        Quot.lift bytes_set (λ a. (proposal_of a).extra_data)
          (λ a b d. ap (λ p. p.extra_data) (proposal_of-IsReordered a b d)) m;
  }

  -- The proposal is a function of the proofs without their order: there is one on the lists of
  -- proofs of pairwise distinct rollup configurations, up to reordering, that is on each list what
  -- `propose` makes of it.
  pub propose_unordered :
      (on_maps : ProofMap → Proposal) × ((ps : List ProofData) (k : IsKeyed ps)
        → on_maps (Quot.mk (ps, k)) ≡ propose enc parent superblock_number ps)
  unfolding propose_map
  propose_unordered = (propose_map, (λ ps k. refl))
