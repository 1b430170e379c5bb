-- ===== src/Coordinator/Submission/Retries.antt =====
-- crates/coordinator/src/l1_submit.rs: the loop of `submit`.
use publisher.Base.{
  ℕ, zero, suc, ◌+◌, ◌<◌, ◌≡◌, refl, sym, ap, subst, ◌∙◌, Option, none, some, List, [], ◌∷◌, arith,
}
use publisher.Base.Lists.{length}
use publisher.Base.Maps.{values}
use publisher.Base.Results.{ok, err}
use publisher.Spec.Primitives.{Text}
use publisher.Coordinator.ProofTypes.{B256, ProofData}
use publisher.Coordinator.Submission.{
  Encoding, Proposal, Attempt, receipt, failed, attempts, submit, propose, agg_outputs_of, delay,
  max_retries, parent_after,
}

abbrev pub IsFailed : Attempt → Type 0
IsFailed a = (e : Text) × (a ≡ failed e)

none_plus : (n : ℕ) → 0 + n ≡ n
none_plus n = omega arith

plus_none : (n : ℕ) → n + 0 ≡ n
plus_none n = omega arith

shift : (j first : ℕ) → suc j + first ≡ j + suc first
shift j first = omega arith

attempts_receipted :
    (answer : ℕ → Attempt) (left first : ℕ) (e : Option Text)
    → answer first ≡ receipt
    → attempts answer (suc left) first e ≡ (delay first ∷ [], ok tt)
unfolding attempts
attempts_receipted answer left first e now = rw now refl

pub attempts_failed :
    (answer : ℕ → Attempt) (left first : ℕ) (e : Option Text) (x : Text)
    → answer first ≡ failed x
    → attempts answer (suc left) first e ≡ (
      delay first ∷ (attempts answer left (suc first) (some x)).0,
      (attempts answer left (suc first) (some x)).1,
    )
unfolding attempts
attempts_failed answer left first e x now = rw now refl

attempts-succeed :
    (answer : ℕ → Attempt) (left first i : ℕ) (e : Option Text)
    → i < left
    → ((j : ℕ) → j < i → IsFailed (answer (j + first)))
    → answer (i + first) ≡ receipt
    → ((attempts answer left first e).1 ≡ ok tt) × (length (attempts answer left first e).0 ≡ suc i)
attempts-succeed answer zero first i e lt before now = ground arith
attempts-succeed answer (suc left) first zero e lt before now =
    rw (attempts_receipted answer left first e (ap answer (sym (none_plus first)) ∙ now))
      (refl, refl)
attempts-succeed answer (suc left) first (suc i) e lt before now =
    let (x, f) = before 0 (omega arith) in
    let later =
      attempts-succeed answer left (suc first) i (some x) (omega arith)
        (λ j h. subst (λ k. IsFailed (answer k)) (shift j first) (before (suc j) (omega arith)))
        (ap answer (sym (shift i first)) ∙ now) in
    rw (attempts_failed answer left first e x (ap answer (sym (none_plus first)) ∙ f))
      (later.0, ap suc later.1)

-- If one of the three attempts is receipted and those before it fail, the submission succeeds with
-- no attempt after it, and the parent hash is that of the superblock proposed.
pub submit_succeeds :
    (enc : Encoding) (answer : Proposal → ℕ → Attempt) (parent : B256) (superblock_number i : ℕ)
    (proofs : List (ℕ × ProofData))
    → i < max_retries
    → ((j : ℕ) → j < i → IsFailed (answer (propose enc parent superblock_number (values proofs)) j))
    → answer (propose enc parent superblock_number (values proofs)) i ≡ receipt
    → let (parent', waits, result) = submit enc answer parent superblock_number proofs in
      (result ≡ ok tt)
      × (length waits ≡ suc i)
      × (parent'
          ≡ enc.keccak256
              (enc.abi_encode (agg_outputs_of parent superblock_number (values proofs))))
unfolding submit
submit_succeeds enc answer parent superblock_number i proofs lt before now =
    let ordered = values proofs in
    let asked = answer (propose enc parent superblock_number ordered) in
    let made =
      attempts-succeed asked max_retries 0 i none lt
        (λ j h. subst (λ k. IsFailed (asked k)) (sym (plus_none j)) (before j h))
        (ap asked (plus_none i) ∙ now) in
    (
      made.0,
      made.1,
      ap (parent_after enc (agg_outputs_of parent superblock_number ordered) parent) made.0,
    )

three_failures :
    (asked : ℕ → Attempt) (x y z : Text)
    → asked 0 ≡ failed x
    → asked 1 ≡ failed y
    → asked 2 ≡ failed z
    → attempts asked max_retries 0 none ≡ (0 ∷ 2 ∷ 4 ∷ [], err (some z))
unfolding attempts
three_failures asked x y z e f g = rw e (rw f (rw g refl))

-- If all three attempts fail, the parent hash stays, the result is the last error, and the waits
-- have doubled: two seconds, then four.
submit_fails :
    (enc : Encoding) (answer : Proposal → ℕ → Attempt) (parent : B256) (superblock_number : ℕ)
    (proofs : List (ℕ × ProofData)) (x y z : Text)
    → answer (propose enc parent superblock_number (values proofs)) 0 ≡ failed x
    → answer (propose enc parent superblock_number (values proofs)) 1 ≡ failed y
    → answer (propose enc parent superblock_number (values proofs)) 2 ≡ failed z
    → submit enc answer parent superblock_number proofs ≡ (parent, 0 ∷ 2 ∷ 4 ∷ [], err (some z))
unfolding submit
submit_fails enc answer parent superblock_number proofs x y z e f g =
    let ordered = values proofs in
    let asked = answer (propose enc parent superblock_number ordered) in
    let made = three_failures asked x y z e f g in
    ap
      (λ r.
        (parent_after enc (agg_outputs_of parent superblock_number ordered) parent r.1, r.0, r.1))
      made
