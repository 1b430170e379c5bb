-- ===== src/Coordinator/Exclusion.antt =====
-- Two-phase commit never runs two transactions on one chain: the two maps `active_xts` and
-- `active_chains` of `CoordinatorState` say the same of who holds a chain.
pub mod Rounds
use publisher.Base.{◌≡◌, true, inl, inr, none, some, List, arith, ℕ_discrete}
use publisher.Base.Tests.{Bool-cases}
use publisher.Base.Lists.{contains}
use publisher.Base.Maps.{get, insert, remove, get-insert, get-remove}
use publisher.Spec.Primitives.{Text, text_discrete, ChainId}
use publisher.Coordinator.State.{ActiveXt, CoordinatorState, reserve, release, is_held_by}
use publisher.Coordinator.Holds.{get-reserve, get-release}

abbrev pub Xts : Type 0
Xts = List (Text × ActiveXt)

abbrev Holders : Type 0
Holders = List (ChainId × Text)

-- A chain of an active transaction is held by it, and a chain is held by no other.
pub record Exclusive (xts : Xts) (m : Holders) : Type 0 where
  pub reserved :
      (id : Text) (xt : ActiveXt) (c : ChainId)
      → get text_discrete id xts ≡ some xt
      → contains ℕ_discrete xt.chains c ≡ true
      → get ℕ_discrete c m ≡ some id
  pub backed :
      (c : ChainId) (id : Text)
      → get ℕ_discrete c m ≡ some id
      → (xt : ActiveXt) × (get text_discrete id xts ≡ some xt)
        × (contains ℕ_discrete xt.chains c ≡ true)

abbrev pub IsExclusive : CoordinatorState → Type 0
IsExclusive s = Exclusive s.active_xts s.active_chains

abbrev Free : List ChainId → Holders → Type 0
Free cs m = (c : ChainId) → contains ℕ_discrete cs c ≡ true → get ℕ_discrete c m ≡ none

module _ (xts : Xts) (m : Holders) (v : Exclusive xts m) (id : Text) (xt : ActiveXt) where
  -- A transaction under a new id, on chains that nobody holds.
  pub open-Exclusive :
      get text_discrete id xts ≡ none
      → Free xt.chains m
      → Exclusive (insert text_discrete id xt xts) (reserve id xt.chains m)
  open-Exclusive new free = record {
    reserved = λ j yt c e k. ground (
      arith,
      get-insert text_discrete id j xt xts,
      get-reserve id c xt.chains m,
      v.reserved j yt c,
      free c,
    );
    backed = λ c j e. elim (Bool-cases (contains ℕ_discrete xt.chains c)) [
      | inl mine ↦ (
        xt,
        ground (arith, get-insert text_discrete id j xt xts, get-reserve id c xt.chains m),
        mine,
      )
      | inr other ↦
          let (yt, found, member) = v.backed c j (ground (arith, get-reserve id c xt.chains m)) in
          (yt, ground (arith, get-insert text_discrete id j xt xts), member)
    ];
  }

  -- The end of an active transaction.
  pub close-Exclusive :
      get text_discrete id xts ≡ some xt
      → Exclusive (remove text_discrete id xts) (release id xt.chains m)
  unfolding is_held_by
  close-Exclusive active = record {
    reserved = λ j yt c e k.
        ground (
          arith,
          get-remove text_discrete id j xts,
          get-release id c xt.chains m,
          v.reserved j yt c,
        );
    backed = λ c j e.
        let held : get ℕ_discrete c m ≡ some j = ground (arith, get-release id c xt.chains m) in
        let (yt, found, member) = v.backed c j held in
        (
          yt,
          ground (arith, get-remove text_discrete id j xts, get-release id c xt.chains m),
          member,
        );
  }

  -- A change of an active transaction that keeps its chains.
  pub update-Exclusive :
      (yt : ActiveXt)
      → get text_discrete id xts ≡ some xt
      → yt.chains ≡ xt.chains
      → Exclusive (insert text_discrete id yt xts) m
  update-Exclusive yt active same = record {
    reserved = λ j zt c e k.
        ground (arith, get-insert text_discrete id j yt xts, v.reserved j zt c, v.reserved j xt c);
    backed = λ c j e.
        let (zt, found, member) = v.backed c j e in
        elim (text_discrete id j) [
          | yes p ↦ (yt, ground (arith, get-insert text_discrete id j yt xts), ground arith)
          | no p ↦ (zt, ground (arith, get-insert text_discrete id j yt xts), member)
        ];
  }

-- No two active transactions have a chain in common.
pub disjoint :
    (s : CoordinatorState) (i j : Text) (xt yt : ActiveXt) (c : ChainId)
    → IsExclusive s
    → get text_discrete i s.active_xts ≡ some xt
    → get text_discrete j s.active_xts ≡ some yt
    → contains ℕ_discrete xt.chains c ≡ true
    → contains ℕ_discrete yt.chains c ≡ true
    → i ≡ j
disjoint s i j xt yt c v e f k l = ground (arith, v.reserved i xt c, v.reserved j yt c)
