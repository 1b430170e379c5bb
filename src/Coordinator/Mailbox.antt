-- ===== src/Coordinator/Mailbox.antt =====
-- crates/coordinator/src/coordinator.rs: `validate_mailbox_consistency`.
pub mod Counterparty
pub mod Accepts
use publisher.Base.{ℕ, zero, suc, Bool, Option, none, some, List, [], ◌∷◌}
use publisher.Base.Tests.{◌==◌, if◌then◌else◌}
use publisher.Base.Lists.{any}
use publisher.Base.Maps.{values}
use publisher.Base.Results.{Result, ok, err}
use publisher.Coordinator.ProofTypes.{B256, MailboxInfo, ProofData}
use publisher.Coordinator.Queue.{position}

-- The two formatted errors, with what they print.
pub data MailboxError : Type 0 where
  inbox_roots_short : ℕ → MailboxError
  mismatch : ℕ → B256 → MailboxError

module _ {ℓ} {A : Type ℓ} where
  abbrev pub get_elem? : List A → ℕ → Option A
  get_elem? [] i = none
  get_elem? (x ∷ xs) zero = some x
  get_elem? (x ∷ xs) (suc i) = get_elem? xs i

  -- `iter().find`.
  unfoldable find : (A → Bool) → List A → Option A
  find p [] = none
  find p (x ∷ xs) = if p x then some x else find p xs

abbrev sends_to : B256 → ProofData → Bool
sends_to chain p = any (λ oc. oc == chain) p.mailbox_info.outbox_chains

-- The three nested `if let`s; `none` where one of them finds nothing.
unfoldable pub outbox_root_of : MailboxInfo → B256 → Option B256
unfolding position
outbox_root_of mi inbox_chain = elim (position (λ oc. oc == inbox_chain) mi.outbox_chains) [
  | none ↦ none
  | some outbox_idx ↦ get_elem? mi.outbox_roots outbox_idx
]

unfoldable pub counterparty_root : List ProofData → B256 → Option B256
unfolding outbox_root_of find any
counterparty_root proofs inbox_chain = elim (find (sends_to inbox_chain) proofs) [
  | none ↦ none
  | some cp ↦ outbox_root_of cp.mailbox_info inbox_chain
]

-- The inner loop, from index `idx` on.
unfoldable pub check_inboxes :
    List ProofData → ℕ → List B256 → List B256 → ℕ → Result MailboxError (Unit {0})
unfolding counterparty_root
check_inboxes proofs chain_i [] roots idx = ok tt
check_inboxes proofs chain_i (inbox_chain ∷ chains) roots idx =
    let others = check_inboxes proofs chain_i chains roots (suc idx) in
    elim (get_elem? roots idx) [
      | none ↦ err (inbox_roots_short chain_i)
      | some inbox_root ↦ elim (counterparty_root proofs inbox_chain) [
        | none ↦ others
        | some outbox_root ↦
            if inbox_root == outbox_root then others else err (mismatch chain_i inbox_chain)
      ]
    ]

-- The outer loop.
unfoldable pub check_chains : List ProofData → List (ℕ × ProofData) → Result MailboxError (Unit {0})
unfolding check_inboxes
check_chains proofs [] = ok tt
check_chains proofs ((chain_i, proof_i) ∷ rest) =
    let others = check_chains proofs rest in
    let mi = proof_i.mailbox_info in
    elim (check_inboxes proofs chain_i mi.inbox_chains mi.inbox_roots 0) [
      | ok _ ↦ others
      | err e ↦ err e
    ]

unfoldable pub validate_mailbox_consistency : List (ℕ × ProofData) → Result MailboxError (Unit {0})
unfolding check_chains
validate_mailbox_consistency proofs = check_chains (values proofs) proofs
