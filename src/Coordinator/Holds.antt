-- ===== src/Coordinator/Holds.antt =====
-- What `reserve_chains` and `release_chains` do to the holder of each chain.
use publisher.Base.{
  ◌≡◌, refl, true, false, ◌&&◌, inl, inr, none, some, List, [], ◌∷◌, arith, ℕ_discrete,
}
use publisher.Base.Tests.{if◌then◌else◌, Bool-cases}
use publisher.Base.Lists.{contains, any}
use publisher.Base.Maps.{get, insert, remove, get-insert, get-remove}
use publisher.Spec.Primitives.{Text, ChainId}
use publisher.Coordinator.State.{CoordinatorState, reserve, release, is_held_by, has_overlap}

module _ (xt_id : Text) (c : ChainId) where
  pub get-reserve :
      (cs : List ChainId) (m : List (ChainId × Text))
      → get ℕ_discrete c (reserve xt_id cs m)
        ≡ (if contains ℕ_discrete cs c then some xt_id else get ℕ_discrete c m)
  unfolding reserve contains
  get-reserve [] m = refl
  get-reserve (d ∷ cs) m =
      ground
        (arith, get-reserve cs (insert ℕ_discrete d xt_id m), get-insert ℕ_discrete d c xt_id m)

  -- A chain is released if it is listed and held by the transaction.
  pub get-release :
      (cs : List ChainId) (m : List (ChainId × Text))
      → get ℕ_discrete c (release xt_id cs m) ≡ (
          if contains ℕ_discrete cs c && is_held_by xt_id (get ℕ_discrete c m)
          then none
          else get ℕ_discrete c m)
  unfolding release contains is_held_by
  get-release [] m = refl
  get-release (d ∷ cs) m = elim (Bool-cases (is_held_by xt_id (get ℕ_discrete d m))) [
    | inl held ↦
        rw held
          (ground (arith, get-release cs (remove ℕ_discrete d m), get-remove ℕ_discrete d c m))
    | inr other ↦ rw other (ground (arith, get-release cs m))
  ]

-- No overlap: none of the chains is held.
pub has_overlap-get :
    (s : CoordinatorState) (cs : List ChainId) (c : ChainId)
    → has_overlap s cs ≡ false
    → contains ℕ_discrete cs c ≡ true
    → get ℕ_discrete c s.active_chains ≡ none
unfolding has_overlap any contains
has_overlap-get s [] c h k = cc
has_overlap-get s (d ∷ cs) c h k = ground (arith, has_overlap-get s cs c)
