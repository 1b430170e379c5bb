-- ===== src/Coordinator/Submission/Seeding.antt =====
-- crates/coordinator/src/l1_submit.rs: `fetch_latest_superblock_state`, which seeds the parent hash
-- and the coordinator's numbers from L1 at the start.
use publisher.Base.{
  ℕ, ◌≤◌, ◌<◌, ◌≡◌, ◌⊎◌, refl, sym, subst, ◌∙◌, inl, inr, false, Option, none, some, arith,
}
use publisher.Base.Tests.{ltb, ◌==◌, if◌then◌else◌, Bool-cases}
use publisher.Base.Words.{add64, u64_mod, to_be_bytes}
use publisher.Base.Results.{Result, ok, err, Result-cases}
use publisher.Spec.Primitives.{Text}
use publisher.Coordinator.ProofTypes.{B256}
use publisher.Coordinator.State.{CoordinatorState}
use publisher.Coordinator.Settlement.{init_superblock}

-- What alloy and the contract answer: `build_provider`, `latestSuperblockNumber`, `getSuperblockHash`.
pub record Oracle : Type 0 where
  pub build_provider : Result Text (Unit {0})
  pub latest_superblock_number : Result Text ℕ
  pub get_superblock_hash : ℕ → Result Text B256

-- `try_into().unwrap_or(0)` of a `U256`.
unfoldable pub to_u64_or_zero : ℕ → ℕ
to_u64_or_zero n = if ltb n u64_mod then n else 0

-- The parent hash after the reading, and what was read.
abbrev Fetched : Type 0
Fetched = B256 × Result Text (Option (ℕ × B256))

unfoldable pub fetch_hash : B256 → ℕ → Result Text B256 → Fetched
fetch_hash parent sb_num (ok sb_hash) = (sb_hash, ok (some (sb_num, sb_hash)))
fetch_hash parent sb_num (err e) = (parent, err e)

unfoldable pub fetch_number : Oracle → B256 → Result Text ℕ → Fetched
unfolding to_u64_or_zero fetch_hash
fetch_number oracle parent (err e) = (parent, err e)
fetch_number oracle parent (ok result) =
    let sb_num = to_u64_or_zero result in
    if sb_num == 0
    then (parent, ok none)
    else fetch_hash parent sb_num (oracle.get_superblock_hash sb_num)

unfoldable pub fetch_provided : Oracle → B256 → Result Text (Unit {0}) → Fetched
unfolding fetch_number
fetch_provided oracle parent (err e) = (parent, err e)
fetch_provided oracle parent (ok _) = fetch_number oracle parent oracle.latest_superblock_number

unfoldable pub fetch_latest_superblock_state : Oracle → B256 → Fetched
unfolding fetch_provided
fetch_latest_superblock_state oracle parent = fetch_provided oracle parent oracle.build_provider

-- The contract can be asked, and has a superblock of this number and hash; the number fits.
abbrev pub IsReadable : Oracle → ℕ → B256 → Type 0
IsReadable oracle n h =
    (oracle.build_provider ≡ ok tt)
    × (oracle.latest_superblock_number ≡ ok n)
    × (1 ≤ n)
    × (n < u64_mod)
    × (oracle.get_superblock_hash n ≡ ok h)

-- Both sides go on from the superblock.
abbrev pub IsSeeded : Oracle → CoordinatorState → CoordinatorState → B256 → Type 0
IsSeeded oracle s t parent =
    (n : ℕ) × (IsReadable oracle n parent)
    × (t ≡ record s {
      last_finalized_superblock_number = n;
      last_finalized_superblock_hash = to_be_bytes 32 parent;
      next_superblock_number = add64 n 1;
    })

abbrev pub IsUnreadable : Oracle → Type 0
IsUnreadable oracle = (n : ℕ) (h : B256) → ¬ IsReadable oracle n h

number_fits :
    (n : ℕ) → (to_u64_or_zero n == 0) ≡ false → (to_u64_or_zero n ≡ n) × (1 ≤ n) × (n < u64_mod)
unfolding to_u64_or_zero
number_fits n filled = ground arith

fitting : (n : ℕ) → 1 ≤ n → n < u64_mod → (to_u64_or_zero n == 0) ≡ false
unfolding to_u64_or_zero
fitting n one fits = ground arith

same_number : {A : Type 0} (a b : A) → ◌≡◌ {A = Result Text A} (ok a) (ok b) → a ≡ b
same_number a b e = cc

not_both : {A : Type 0} (r : Result Text A) (a : A) (x : Text) → r ≡ ok a → r ≡ err x → ⊥
not_both r a x e f = cc

module _ (oracle : Oracle) (parent : B256) (s : CoordinatorState) where
  abbrev Outcome : Fetched → Type 0
  Outcome f =
      IsSeeded oracle s (init_superblock s f.1) f.0
      ⊎ (IsUnreadable oracle × (f.0 ≡ parent) × (init_superblock s f.1 ≡ s))

  module _ (provided : oracle.build_provider ≡ ok tt) where
    hash_outcome :
        (n : ℕ)
        → oracle.latest_superblock_number ≡ ok n
        → 1 ≤ n
        → n < u64_mod
        → Outcome (fetch_hash parent n (oracle.get_superblock_hash n))
    unfolding fetch_hash init_superblock
    hash_outcome n e one fits = elim (Result-cases (oracle.get_superblock_hash n)) [
      | inl (h, known) ↦ rw known (inl (n, (provided, e, one, fits, known), refl))
      | inr (x, failed) ↦ rw failed (
          inr (
            (λ m h (u, f, _, _, known).
                not_both (oracle.get_superblock_hash n) h x
                  (subst (λ k. oracle.get_superblock_hash k ≡ ok h) (same_number m n (sym f ∙ e))
                    known)
                  failed),
            refl,
            refl,
          ))
    ]

    number_outcome :
        (n : ℕ)
        → oracle.latest_superblock_number ≡ ok n
        → Outcome (fetch_number oracle parent (ok n))
    unfolding fetch_number init_superblock
    number_outcome n e = elim (Bool-cases (to_u64_or_zero n == 0)) [
      | inl empty ↦ rw empty (
          inr (
            (λ m h (u, f, one, fits, known).
                let same = same_number m n (sym f ∙ e) in
                let filled =
                  fitting n (subst (λ k. 1 ≤ k) same one) (subst (λ k. k < u64_mod) same fits) in
                cc),
            refl,
            refl,
          ))
      | inr filled ↦
          let (same, one, fits) = number_fits n filled in
          rw filled (rw same (hash_outcome n e one fits))
    ]

  provided_outcome :
      (r : Result Text (Unit {0}))
      → oracle.build_provider ≡ r
      → Outcome (fetch_provided oracle parent r)
  unfolding fetch_provided init_superblock fetch_number
  provided_outcome (err e) p =
      inr ((λ n h (u, _, _, _, _). not_both oracle.build_provider tt e u p), refl, refl)
  provided_outcome (ok u) p = elim (Result-cases oracle.latest_superblock_number) [
    | inl (n, known) ↦
        subst (λ r. Outcome (fetch_number oracle parent r)) (sym known) (number_outcome p n known)
    | inr (x, failed) ↦
        subst (λ r. Outcome (fetch_number oracle parent r)) (sym failed)
          (inr (
            (λ n h (u, f, _, _, _). not_both oracle.latest_superblock_number n x f failed),
            refl,
            refl,
          ))
  ]

-- If the provider is there and the contract has a superblock whose number is positive and fits into
-- `u64`, with a hash that can be read, the next superblock of the coordinator has the number after
-- it and the coordinator and the submitter both hold its hash; otherwise the reading changes
-- nothing on either side.
pub seeding_lem :
    (oracle : Oracle) (parent : B256) (s : CoordinatorState)
    → let f = fetch_latest_superblock_state oracle parent in
      IsSeeded oracle s (init_superblock s f.1) f.0
      ⊎ (IsUnreadable oracle × (f.0 ≡ parent) × (init_superblock s f.1 ≡ s))
unfolding fetch_latest_superblock_state
seeding_lem oracle parent s = provided_outcome oracle parent s oracle.build_provider refl
