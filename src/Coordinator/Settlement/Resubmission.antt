-- ===== src/Coordinator/Settlement/Resubmission.antt =====
-- The number that a completed collection is submitted under.
use publisher.Base.{ℕ, ◌≡◌, refl, sym, ◌∙◌, some, List, [], ◌∷◌, arith}
use publisher.Base.Lists.{All}
use publisher.Coordinator.ProofTypes.{ProofData}
use publisher.Coordinator.State.{External, CoordinatorState}
use publisher.Coordinator.Rounds.{expired_ids}
use publisher.Coordinator.History.Frame.{start_next-Framed, reap_each-Framed}
use publisher.Coordinator.Settlement.{collect_proof}
use publisher.Coordinator.History.{
  Event, registered, initialized, period_began, requested, voted, drained, reaped, proof_received,
  finalized, proofs_reaped, rolled_back, step, run,
}

-- The event ends a submission, reads the number from L1, or rolls back.
abbrev IsSettling : Event → Type 0
IsSettling (initialized latest) = Unit
IsSettling (finalized number) = Unit
IsSettling rolled_back = Unit
IsSettling e = ⊥

abbrev number_of : CoordinatorState → ℕ
number_of s = s.next_superblock_number

step-number :
    (ext : External) (s : CoordinatorState) (e : Event)
    → ¬ IsSettling e
    → number_of (step ext s e) ≡ number_of s
unfolding step
step-number ext s (registered client_id chain_id) n = refl
step-number ext s (initialized latest) n = absurd (n tt)
step-number ext s period_began n = refl
step-number ext s (requested req now) n = ground arith
step-number ext s (voted bytes c b now) n = ground arith
step-number ext s (drained now) n = (start_next-Framed ext s now).number
step-number ext s (reaped now timeout) n =
    (reap_each-Framed ext s (expired_ids s.active_xts now timeout)).number
step-number ext s (proof_received number chain proof now) n = ground arith
step-number ext s (finalized number) n = absurd (n tt)
step-number ext s (proofs_reaped now window) n = ground arith
step-number ext s rolled_back n = absurd (n tt)

run-number :
    (ext : External) (s : CoordinatorState) (es : List Event)
    → All (λ e. ¬ IsSettling e) es
    → number_of (run ext s es) ≡ number_of s
unfolding run
run-number ext s [] q = refl
run-number ext s (e ∷ es) q = run-number ext (step ext s e) es q.1 ∙ step-number ext s e q.0

collect_proof-number :
    (s : CoordinatorState) (number chain : ℕ) (proof : ProofData) (now n : ℕ)
    (proofs : List (ℕ × ProofData))
    → (collect_proof s number chain proof now).1 ≡ some (n, proofs)
    → n ≡ number_of s
unfolding collect_proof
collect_proof-number s number chain proof now n proofs e = ground arith

-- Two collections that complete, the second before the submission of the first has ended, before a
-- rollback and before the number is read from L1, are submitted under the same superblock number.
pub submitted_twice :
    (ext : External) (s : CoordinatorState) (es : List Event) (number chain : ℕ) (proof : ProofData)
    (now : ℕ) (number' chain' : ℕ) (proof' : ProofData) (now' n n' : ℕ)
    (proofs proofs' : List (ℕ × ProofData))
    → All (λ e. ¬ IsSettling e) es
    → (collect_proof s number chain proof now).1 ≡ some (n, proofs)
    → (let t = run ext s (proof_received number chain proof now ∷ es) in
        (collect_proof t number' chain' proof' now').1 ≡ some (n', proofs'))
    → n' ≡ n
submitted_twice ext s es number chain proof now number' chain' proof' now' n n' proofs proofs' q e
      e' =
    collect_proof-number (run ext s (proof_received number chain proof now ∷ es)) number' chain'
      proof' now' n' proofs' e'
    ∙ run-number ext s (proof_received number chain proof now ∷ es) ((λ b. b), q)
    ∙ sym (collect_proof-number s number chain proof now n proofs e)
