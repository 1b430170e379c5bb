-- ===== src/Coordinator/Queue/First.antt =====
-- `take_next_ready` takes the first entry whose chains are all free.
use publisher.Base.{
  ℕ, suc, ◌≡◌, refl, ap, Bool, true, false, inl, inr, ◌⊎◌, Option, none, some, List, [], ◌∷◌, ◌++◌,
  arith, ◌∙◌,
}
use publisher.Base.Tests.{Bool-cases}
use publisher.Base.Lists.{length, All}
use publisher.Coordinator.State.{CoordinatorState, PendingEntry}
use publisher.Coordinator.Queue.{position, remove_at, is_ready, take_at, take_next_ready}

module _ {ℓ} {A : Type ℓ} (p : A → Bool) where
  -- The list is split at its first element that passes the test.
  abbrev SplitsAt : List A → ℕ → A → List A → List A → Type ℓ
  SplitsAt xs i x before after =
      (xs ≡ before ++ x ∷ after)
      × (i ≡ length before)
      × (p x ≡ true)
      × All (λ y. p y ≡ false) before

  position-cases :
      (xs : List A)
      → ((position p xs ≡ none) × All (λ y. p y ≡ false) xs)
        ⊎ ((i : ℕ) × (x : A) × (before : List A) × (after : List A) × (position p xs ≡ some i)
            × SplitsAt xs i x before after)
  unfolding position
  position-cases [] = inl (refl, tt)
  position-cases (y ∷ xs) = elim (Bool-cases (p y)) [
    | inl pass ↦ inr (0, y, [], xs, rw pass, (refl, refl, pass, tt))
    | inr fail ↦ elim (position-cases xs) [
      | inl (e, rest) ↦ inl (ground arith, (fail, rest))
      | inr (i, x, before, after, e, (split, at, pass, rest)) ↦ inr (
        suc i,
        x,
        y ∷ before,
        after,
        ground arith,
        (ap (◌∷◌ y) split, ap suc at, pass, (fail, rest)),
      )
    ]
  ]

remove_at-split {ℓ} :
    {A : Type ℓ} (before : List A) (x : A) (after : List A)
    → remove_at (length before) (before ++ x ∷ after) ≡ some (x, before ++ after)
unfolding remove_at
remove_at-split [] x after = refl
remove_at-split (y ∷ before) x after = rw (remove_at-split before x after)

take_at-split :
    (s : CoordinatorState) (i : ℕ) (e : PendingEntry) (before after : List PendingEntry)
    → s.pending_queue ≡ before ++ e ∷ after
    → i ≡ length before
    → take_at s (some i) ≡ (record s { pending_queue = before ++ after }, some e)
unfolding take_at
take_at-split s i e before after split at = ground (
  arith,
  ap (remove_at i) split,
  ap (λ (j : ℕ). remove_at j (before ++ e ∷ after)) at,
  remove_at-split before e after,
)

-- Nothing is taken, and then no entry is ready; or the first ready entry is taken out of the
-- queue, the rest keeps its order, and nothing else changes.
pub data Taken (s : CoordinatorState) (r : CoordinatorState × Option PendingEntry) : Type 0 where
  nothing : r ≡ (s, none) → All (λ e. is_ready s e ≡ false) s.pending_queue → Taken s r
  first :
      (e : PendingEntry) (before after : List PendingEntry)
      → s.pending_queue ≡ before ++ e ∷ after
      → is_ready s e ≡ true
      → All (λ d. is_ready s d ≡ false) before
      → r ≡ (record s { pending_queue = before ++ after }, some e)
      → Taken s r

take_at-none : (s : CoordinatorState) → take_at s none ≡ (s, none)
unfolding take_at
take_at-none s = refl

-- `take_next_ready` takes the first entry of the queue whose chains are all free and keeps the
-- others in order, or finds none and changes nothing.
pub take_next_ready-Taken : (s : CoordinatorState) → Taken s (take_next_ready s)
unfolding take_next_ready
take_next_ready-Taken s = elim (position-cases (is_ready s) s.pending_queue) [
  | inl (e, rest) ↦ nothing (ap (take_at s) e ∙ take_at-none s) rest
  | inr (i, x, before, after, e, (split, at, pass, rest)) ↦
      first x before after split pass rest
        (ap (take_at s) e ∙ take_at-split s i x before after split at)
]
