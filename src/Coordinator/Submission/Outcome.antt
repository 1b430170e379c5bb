-- ===== src/Coordinator/Submission/Outcome.antt =====
-- crates/coordinator/src/l1_submit.rs: how `submit` of an `L1Submitter` ends.
use publisher.Base.{
  ℕ, zero, suc, ◌+◌, ◌<◌, ◌≡◌, ◌⊎◌, refl, sym, ap, subst, ◌∙◌, inl, inr, Option, none, some, List,
  [], arith, ℕ_discrete,
}
use publisher.Base.Lists.{length}
use publisher.Base.Maps.{values}
use publisher.Base.Results.{Result, ok, err, Result-cases}
use publisher.Spec.Primitives.{Text}
use publisher.Coordinator.ProofTypes.{ProofData}
use publisher.Coordinator.Submission
use publisher.Coordinator.Submission.{
  Encoding, Proposal, Attempt, receipt, failed, attempts, propose, agg_outputs_of, max_retries,
  parent_after,
}
use publisher.Coordinator.Submission.Retries.{IsFailed, attempts_failed, submit_succeeds}
use publisher.Coordinator.Submission.Provider.{
  Alloy, L1Submitter, Submitted, Error, build_provider, submit, submit_provided, result_of,
}

abbrev Receipted : (ℕ → Attempt) → ℕ → Type 0
Receipted answer i = ((j : ℕ) → j < i → IsFailed (answer j)) × (answer i ≡ receipt)

abbrev AllFailed : (ℕ → Attempt) → ℕ → Type 0
AllFailed answer n = (j : ℕ) → j < n → IsFailed (answer j)

-- The first receipt, if there is one.
search_receipt :
    (answer : ℕ → Attempt) (n : ℕ) → ((i : ℕ) × ((i < n) × Receipted answer i)) ⊎ AllFailed answer n
search_receipt answer zero = inr (λ j h. ground (arith, h))
search_receipt answer (suc n) = elim (search_receipt answer n) [
  | inl (i, (small, r)) ↦ inl (i, (omega arith, r))
  | inr all_failed ↦ elim (Attempt-cases (answer n)) [
    | inl e ↦ inl (n, (omega arith, (all_failed, e)))
    | inr f ↦ inr (λ j h. elim (lt-cases j n h) [
      | inl below ↦ all_failed j below
      | inr last ↦ subst (λ k. IsFailed (answer k)) (sym last) f
    ])
  ]
]
  where
    Attempt-cases : (a : Attempt) → (a ≡ receipt) ⊎ IsFailed a
    Attempt-cases receipt = inl refl
    Attempt-cases (failed e) = inr (e, refl)

    lt-cases : (j n : ℕ) → j < suc n → (j < n) ⊎ (j ≡ n)
    lt-cases j n h = elim (ℕ_discrete j n) [ yes e ↦ inr e | no apart ↦ inl (omega arith) ]

attempts-fail :
    (answer : ℕ → Attempt) (left first : ℕ) (e : Option Text)
    → ((j : ℕ) → j < left → IsFailed (answer (j + first)))
    → (x : Option Text) × ((attempts answer left first e).1 ≡ err x)
unfolding attempts
attempts-fail answer zero first e all_failed = (e, refl)
attempts-fail answer (suc left) first e all_failed =
    let (x, f) = all_failed 0 (omega arith) in
    let (y, later) =
      attempts-fail answer left (suc first) (some x) (λ j h.
        subst (λ k. IsFailed (answer k)) (omega arith) (all_failed (suc j) (omega arith))) in
    (
      y,
      ap (λ r. r.1)
            (attempts_failed answer left first e x
              (subst (λ k. answer k ≡ failed x) (omega arith) f))
          ∙ later,
    )

same_ok {ℓ} : {A : Type ℓ} (a b : A) → ◌≡◌ {A = Result Error A} (ok a) (ok b) → a ≡ b
same_ok a b e = cc

not_err {ℓ κ} :
    {A : Type ℓ} {B : Type κ} (a : A) (e : Error) → ◌≡◌ {A = Result Error A} (ok a) (err e) → B
not_err a e same = cc

module _ {Address Signer Url Provider : Type 0} (alloy : Alloy Address Signer Url Provider)
    (enc : Encoding) (contract : Provider → Address → Proposal → ℕ → Attempt)
    (s : L1Submitter Address) (superblock_number : ℕ) (proofs : List (ℕ × ProofData)) where
  -- What the contract answers to each attempt through a provider.
  abbrev pub asked : Provider → ℕ → Attempt
  asked provider =
      contract provider s.l2oo_address (propose enc s.parent_hash superblock_number (values proofs))

  -- The submission went through at some attempt.
  abbrev pub IsSent : Submitted Address → Type 0
  IsSent r =
      (provider : Provider) × ((build_provider alloy s ≡ ok provider)
        × ((i : ℕ) × ((i < max_retries)
              × (Receipted (asked provider) i)
              × (r ≡ (
                record s {
                  parent_hash = enc.keccak256 (
                      enc.abi_encode
                        (agg_outputs_of s.parent_hash superblock_number (values proofs)));
                },
                r.1,
                ok tt,
              ))
              × (length r.1 ≡ suc i))))

  -- There is no provider, or each attempt failed.
  abbrev pub IsUnsent : Submitted Address → Type 0
  IsUnsent r =
      ((provider : Provider)
        → build_provider alloy s ≡ ok provider
        → AllFailed (asked provider) max_retries)
      × ((e : Error ⊎ Option Text) × (r ≡ (s, r.1, err e)))

  provided :
      (provider : Provider)
      → build_provider alloy s ≡ ok provider
      → submit alloy enc contract s superblock_number proofs
        ≡ submit_provided enc contract s superblock_number proofs (ok provider)
  unfolding submit
  provided provider built = ap (submit_provided enc contract s superblock_number proofs) built

  unprovided :
      (e : Error)
      → build_provider alloy s ≡ err e
      → submit alloy enc contract s superblock_number proofs ≡ (s, [], err (inl e))
  unfolding submit
  unprovided e fails = ap (submit_provided enc contract s superblock_number proofs) fails

  sent :
      (provider : Provider) (i : ℕ)
      → build_provider alloy s ≡ ok provider
      → i < max_retries
      → Receipted (asked provider) i
      → IsSent (submit_provided enc contract s superblock_number proofs (ok provider))
  sent provider i built small (before, now) =
      let (done, count, parent) =
        submit_succeeds enc (contract provider s.l2oo_address) s.parent_hash superblock_number i
          proofs small before now in
      let waits =
        (Submission.submit enc (contract provider s.l2oo_address) s.parent_hash superblock_number
          proofs).1 in
      (
        provider,
        (
          built,
          (
            i,
            (
              small,
              (before, now),
              (λ k. (record s { parent_hash = parent k }, waits, result_of (done k))),
              count,
            ),
          ),
        ),
      )

  unsent :
      (provider : Provider)
      → build_provider alloy s ≡ ok provider
      → AllFailed (asked provider) max_retries
      → IsUnsent (submit_provided enc contract s superblock_number proofs (ok provider))
  unfolding Submission.submit
  unsent provider built all_failed =
      let (x, given_up) =
        attempts-fail (asked provider) max_retries 0 none
          (λ j h. subst (λ k. IsFailed (asked provider k)) (omega arith) (all_failed j h)) in
      let waits =
        (Submission.submit enc (contract provider s.l2oo_address) s.parent_hash superblock_number
          proofs).1 in
      let outputs = agg_outputs_of s.parent_hash superblock_number (values proofs) in
      (
        (λ other same.
            subst (λ p. AllFailed (asked p) max_retries) (same_ok provider other (sym built ∙ same))
              all_failed),
        (
          inr x,
          (λ k. (
            record s { parent_hash = parent_after enc outputs s.parent_hash (given_up k) },
            waits,
            result_of (given_up k),
          )),
        ),
      )

  -- Either the key and the URL of the submitter make a provider, the first receipt is that of one
  -- of the three attempts, and then the submission succeeds with no attempt after it and with the
  -- hash of the superblock proposed as the parent hash; or no provider is made or all three
  -- attempts fail, and then the submission fails and leaves the submitter as it was.
  pub submit_lem :
      let r = submit alloy enc contract s superblock_number proofs in IsSent r ⊎ IsUnsent r
  submit_lem = elim (Result-cases (build_provider alloy s)) [
    | inl (provider, built) ↦ elim (search_receipt (asked provider) max_retries) [
      | inl (i, (small, r)) ↦
          inl (subst IsSent (sym (provided provider built)) (sent provider i built small r))
      | inr all_failed ↦
          inr (subst IsUnsent (sym (provided provider built)) (unsent provider built all_failed))
    ]
    | inr (e, fails) ↦ inr (
      (λ provider built. not_err provider e (sym built ∙ fails)),
      (
        inl e,
        unprovided e fails
            ∙ ap (λ w. (s, w, err (inl e))) (sym (ap (λ r. r.1) (unprovided e fails))),
      ),
    )
  ]
