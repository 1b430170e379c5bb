-- ===== src/Coordinator/Mailbox/Counterparty.antt =====
-- The counterparty that `validate_mailbox_consistency` compares an inbox with.
use publisher.Base.{ℕ, ◌≡◌, ◌≢◌, [], ◌∷◌, arith}
use publisher.Base.Lists.{any}
use publisher.Base.Results.{err}
use publisher.Coordinator.ProofTypes.{B256, ProofData}
use publisher.Coordinator.Mailbox.{mismatch, validate_mailbox_consistency}

-- Two chains that exchange messages both ways, each with the inbox root that the other has in its
-- outbox for it, are refused whenever the two directions differ.
pub validate_refuses_exchange :
    (p q : ProofData) (i j : ℕ) (a b to_a to_b : B256)
    → a ≢ b
    → to_a ≢ to_b
    → p.mailbox_info ≡ record {
      inbox_chains = b ∷ [];
      outbox_chains = b ∷ [];
      inbox_roots = to_a ∷ [];
      outbox_roots = to_b ∷ [];
    }
    → q.mailbox_info ≡ record {
      inbox_chains = a ∷ [];
      outbox_chains = a ∷ [];
      inbox_roots = to_b ∷ [];
      outbox_roots = to_a ∷ [];
    }
    → validate_mailbox_consistency ((i, p) ∷ (j, q) ∷ []) ≡ err (mismatch i b)
unfolding validate_mailbox_consistency any
validate_refuses_exchange p q i j a b to_a to_b ab roots hp hq = ground arith
