-- ===== src/Coordinator/Mailbox/Accepts.antt =====
-- What `validate_mailbox_consistency` accepts.
use publisher.Base.{
  ℕ, zero, suc, ◌+◌, ◌≡◌, ◌↔◌, ◌⊎◌, refl, subst, inl, inr, none, some, List, [], ◌∷◌, arith,
}
use publisher.Base.Tests.{Option-cases}
use publisher.Base.Maps.{values}
use publisher.Base.Results.{ok, Result-cases}
use publisher.Coordinator.ProofTypes.{B256, MailboxInfo, ProofData}
use publisher.Coordinator.Mailbox.{
  get_elem?, counterparty_root, check_inboxes, check_chains, validate_mailbox_consistency,
}

-- The inbox has a root, and it is the counterparty's if that can be found.
abbrev IsMatched : List ProofData → List B256 → ℕ → B256 → Type 0
IsMatched proofs roots idx inbox_chain =
    (root : B256) × (get_elem? roots idx ≡ some root)
    × ((counterparty_root proofs inbox_chain ≡ none)
        ⊎ (counterparty_root proofs inbox_chain ≡ some root))

-- All inboxes of a chain are matched.
abbrev pub AreMatched : List ProofData → MailboxInfo → Type 0
AreMatched proofs mi =
    (idx : ℕ) (inbox_chain : B256)
    → get_elem? mi.inbox_chains idx ≡ some inbox_chain
    → IsMatched proofs mi.inbox_roots idx inbox_chain

module _ (proofs : List ProofData) (chain_i : ℕ) (roots : List B256) where
  -- The first inbox is matched, and the others pass.
  check_inboxes-first :
      (c : B256) (chains : List B256) (from : ℕ)
      → check_inboxes proofs chain_i (c ∷ chains) roots from ≡ ok tt
      → IsMatched proofs roots from c
        × (check_inboxes proofs chain_i chains roots (suc from) ≡ ok tt)
  unfolding check_inboxes
  check_inboxes-first c chains from e = elim (Option-cases (get_elem? roots from)) [
    | inl short ↦ absurd (ground arith)
    | inr (root, found) ↦ elim (Option-cases (counterparty_root proofs c)) [
      | inl unknown ↦ ((root, found, inl unknown), ground arith)
      | inr (outbox, known) ↦ ((root, found, inr (ground arith)), ground arith)
    ]
  ]

  first-check_inboxes :
      (c : B256) (chains : List B256) (from : ℕ)
      → IsMatched proofs roots from c
      → check_inboxes proofs chain_i chains roots (suc from) ≡ ok tt
      → check_inboxes proofs chain_i (c ∷ chains) roots from ≡ ok tt
  unfolding check_inboxes
  first-check_inboxes c chains from (root, found, inl unknown) rest = ground arith
  first-check_inboxes c chains from (root, found, inr known) rest = ground arith

  check_inboxes-IsMatched :
      (chains : List B256) (from : ℕ)
      → check_inboxes proofs chain_i chains roots from ≡ ok tt
      → (idx : ℕ) (inbox_chain : B256) → get_elem? chains idx ≡ some inbox_chain
      → IsMatched proofs roots (from + idx) inbox_chain
  unfolding check_inboxes
  check_inboxes-IsMatched [] from e idx inbox_chain h = cc
  check_inboxes-IsMatched (c ∷ chains) from e zero inbox_chain h =
      subst (λ k. IsMatched proofs roots k inbox_chain) (omega arith)
        (subst (IsMatched proofs roots from) (ground arith) (check_inboxes-first c chains from e).0)
  check_inboxes-IsMatched (c ∷ chains) from e (suc idx) inbox_chain h =
      subst (λ k. IsMatched proofs roots k inbox_chain) (omega arith)
        (check_inboxes-IsMatched chains (suc from) (check_inboxes-first c chains from e).1 idx
          inbox_chain h)

  matched-check_inboxes :
      (chains : List B256) (from : ℕ)
      → ((idx : ℕ) (inbox_chain : B256)
          → get_elem? chains idx ≡ some inbox_chain
          → IsMatched proofs roots (from + idx) inbox_chain)
      → check_inboxes proofs chain_i chains roots from ≡ ok tt
  unfolding check_inboxes
  matched-check_inboxes [] from m = refl
  matched-check_inboxes (c ∷ chains) from m =
      let rest = matched-check_inboxes chains (suc from) (λ idx inbox_chain h.
        subst (λ k. IsMatched proofs roots k inbox_chain) (omega arith)
          (m (suc idx) inbox_chain h)) in
      first-check_inboxes c chains from
        (subst (λ k. IsMatched proofs roots k c) (omega arith) (m 0 c refl)) rest

module _ (proofs : List ProofData) where
  check_chains-ok :
      (i : ℕ) (p : ProofData) (rest : List (ℕ × ProofData))
      → (check_chains proofs ((i, p) ∷ rest) ≡ ok tt) ↔ (
          (check_inboxes proofs i p.mailbox_info.inbox_chains p.mailbox_info.inbox_roots 0 ≡ ok tt)
          × (check_chains proofs rest ≡ ok tt))
  unfolding check_chains
  check_chains-ok i p rest =
      elim (Result-cases
        (check_inboxes proofs i p.mailbox_info.inbox_chains p.mailbox_info.inbox_roots 0)) [
          | inl (u, e) ↦ (λ h. (e, ground arith), λ h. ground (arith, h.1))
          | inr (x, e) ↦ (λ h. absurd (ground arith), λ h. absurd (ground (arith, h.0)))
        ]

  check_chains-matched :
      (rest : List (ℕ × ProofData))
      → check_chains proofs rest ≡ ok tt
      → (k i : ℕ) (p : ProofData) → get_elem? rest k ≡ some (i, p)
      → AreMatched proofs p.mailbox_info
  check_chains-matched [] e k i p h = cc
  check_chains-matched ((j, q) ∷ rest) e zero i p h =
      let same : q ≡ p = ground arith in
      subst (λ (r : ProofData). AreMatched proofs r.mailbox_info) same
        (λ idx inbox_chain found.
          subst (λ n. IsMatched proofs q.mailbox_info.inbox_roots n inbox_chain) (omega arith)
            (check_inboxes-IsMatched proofs j q.mailbox_info.inbox_roots q.mailbox_info.inbox_chains
              0 ((check_chains-ok j q rest).0 e).0 idx inbox_chain found))
  check_chains-matched ((j, q) ∷ rest) e (suc k) i p h =
      check_chains-matched rest ((check_chains-ok j q rest).0 e).1 k i p h

  matched-check_chains :
      (rest : List (ℕ × ProofData))
      → ((k i : ℕ) (p : ProofData)
          → get_elem? rest k ≡ some (i, p)
          → AreMatched proofs p.mailbox_info)
      → check_chains proofs rest ≡ ok tt
  unfolding check_chains
  matched-check_chains [] m = refl
  matched-check_chains ((j, q) ∷ rest) m = (check_chains-ok j q rest).1 (
    matched-check_inboxes proofs j q.mailbox_info.inbox_roots q.mailbox_info.inbox_chains 0
        (λ idx inbox_chain h.
          subst (λ n. IsMatched proofs q.mailbox_info.inbox_roots n inbox_chain) (omega arith)
            (m 0 j q refl idx inbox_chain h)),
    matched-check_chains rest (λ k i p h. m (suc k) i p h),
  )

-- Proofs are accepted exactly if every inbox of every chain has a root, which is the root that the
-- counterparty found for it has, if one with such a root is found.
pub validate_iff :
    (proofs : List (ℕ × ProofData))
    → (validate_mailbox_consistency proofs ≡ ok tt) ↔ (
        (k i : ℕ) (p : ProofData)
        → get_elem? proofs k ≡ some (i, p)
        → AreMatched (values proofs) p.mailbox_info)
unfolding validate_mailbox_consistency
validate_iff proofs =
    (check_chains-matched (values proofs) proofs, matched-check_chains (values proofs) proofs)
