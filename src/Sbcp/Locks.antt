-- ===== src/Sbcp/Locks.antt =====
-- The chains that the publisher's instances lock: `start_instance` and `decide_instance`.
use publisher.Base.{
  ◌≡◌, refl, sym, ap, ◌∙◌, Bool, true, false, ◌&&◌, ◌||◌, ◌⊎◌, none, some, List, [], ◌∷◌, arith,
  ℕ_discrete,
}
use publisher.Base.Tests.{if◌then◌else◌}
use publisher.Base.Lists.{any, contains}
use publisher.Base.Maps.{get, contains_key, insert, remove, get-insert, get-remove}
use publisher.Base.Words.{add64}
use publisher.Base.Results.{ok, err}
use publisher.Spec.Primitives.{Bytes, ChainId}
use publisher.Spec.Instance.{XtRequest, Instance, chains, chains_from_request}
use publisher.Sbcp.Publisher.{
  PublisherState, invalid_request, cannot_start_instance, is_active, any_chain_already_active,
  activate, deactivate, all_known, start_instance, decide_instance,
}

module _ (c : ChainId) where
  get-activate :
      (cs : List ChainId) (m : List (ChainId × Bool))
      → get ℕ_discrete c (activate cs m)
        ≡ (if contains ℕ_discrete cs c then some true else get ℕ_discrete c m)
  unfolding activate contains
  get-activate [] m = refl
  get-activate (d ∷ cs) m =
      ground (arith, get-activate cs (insert ℕ_discrete d true m), get-insert ℕ_discrete d c true m)

  get-deactivate :
      (cs : List ChainId) (m : List (ChainId × Bool))
      → get ℕ_discrete c (deactivate cs m)
        ≡ (if contains ℕ_discrete cs c then none else get ℕ_discrete c m)
  unfolding deactivate contains
  get-deactivate [] m = refl
  get-deactivate (d ∷ cs) m =
      ground (arith, get-deactivate cs (remove ℕ_discrete d m), get-remove ℕ_discrete d c m)

  inactive_member :
      (cs : List ChainId) (m : List (ChainId × Bool))
      → any_chain_already_active m cs ≡ false
      → contains ℕ_discrete cs c ≡ true
      → is_active m c ≡ false
  unfolding any_chain_already_active any contains
  inactive_member [] m h k = cc
  inactive_member (d ∷ cs) m h k = elim (ℕ_discrete d c) [
    | yes p ↦ rw (← p) (ground arith)
    | no p ↦ inactive_member cs m (ground arith) (ground arith)
  ]

all_known-of_contains :
    (cs : List ChainId) (m : List (ChainId × Bool))
    → ((c : ChainId) → contains ℕ_discrete cs c ≡ true → contains_key ℕ_discrete c m ≡ true)
    → all_known cs m ≡ true
unfolding all_known contains
all_known-of_contains [] m h = refl
all_known-of_contains (d ∷ cs) m h =
    ground (arith, h d, all_known-of_contains cs m (λ c k. h c (ground arith)))

-- An instance is started only past both guards.
started :
    (sha256 : Bytes → Bytes) (s : PublisherState) (request : XtRequest) (i : Instance)
    → (start_instance sha256 s request).2 ≡ ok i
    → (any_chain_already_active s.active_chains (chains_from_request request) ≡ false)
      × ((start_instance sha256 s request).0 ≡ record s {
        sequence_number = add64 s.sequence_number 1;
        active_chains = activate (chains_from_request request) s.active_chains;
      })
      × (i.xt_request ≡ request)
      × (i.period_id ≡ s.period_id)
      × (i.sequence_number ≡ add64 s.sequence_number 1)
unfolding start_instance
started sha256 s request i e = ground arith

is_active-activate :
    (cs : List ChainId) (m : List (ChainId × Bool)) (c : ChainId)
    → is_active (activate cs m) c ≡ (contains ℕ_discrete cs c || is_active m c)
unfolding is_active
is_active-activate cs m c = ground (arith, get-activate c cs m)

free_member :
    (cs : List ChainId) (m : List (ChainId × Bool)) (c : ChainId)
    → any_chain_already_active m cs ≡ false
    → (contains ℕ_discrete cs c && is_active m c) ≡ false
free_member cs m c h = ground (arith, inactive_member c cs m h)

-- What a started instance means for each chain: those of the request were free and are locked now,
-- all others are as before. The instance has the request, the period and the next number.
pub start_instance_locks :
    (sha256 : Bytes → Bytes) (s : PublisherState) (request : XtRequest) (i : Instance) (c : ChainId)
    → (start_instance sha256 s request).2 ≡ ok i
    → (is_active (start_instance sha256 s request).0.active_chains c
        ≡ (contains ℕ_discrete (chains i) c || is_active s.active_chains c))
      × ((contains ℕ_discrete (chains i) c && is_active s.active_chains c) ≡ false)
      × (i.xt_request ≡ request)
      × (i.period_id ≡ s.period_id)
      × (i.sequence_number ≡ add64 s.sequence_number 1)
      × ((start_instance sha256 s request).0.sequence_number ≡ i.sequence_number)
start_instance_locks sha256 s request i c e =
    let (free, after, same, period, seq) = started sha256 s request i e in
    let cs = chains_from_request request in
    rw (ap chains_from_request same) (
      ap (λ (t : PublisherState). is_active t.active_chains c) after
          ∙ is_active-activate cs s.active_chains c,
      free_member cs s.active_chains c free,
      same,
      period,
      seq,
      ap (λ (t : PublisherState). t.sequence_number) after ∙ sym seq,
    )

is_active_restored :
    (cs : List ChainId) (m : List (ChainId × Bool)) (c : ChainId)
    → any_chain_already_active m cs ≡ false
    → is_active (deactivate cs (activate cs m)) c ≡ is_active m c
unfolding is_active
is_active_restored cs m c h =
    ground
      (arith, get-deactivate c cs (activate cs m), get-activate c cs m, inactive_member c cs m h)

-- The decision of an instance that has just been started succeeds, and every chain is locked or
-- free as it was before.
decide_instance-start_instance :
    (sha256 : Bytes → Bytes) (s : PublisherState) (request : XtRequest) (i : Instance) (c : ChainId)
    → (start_instance sha256 s request).2 ≡ ok i
    → ((decide_instance (start_instance sha256 s request).0 i).2 ≡ ok tt)
      × (is_active (decide_instance (start_instance sha256 s request).0 i).0.active_chains c
          ≡ is_active s.active_chains c)
unfolding decide_instance
decide_instance-start_instance sha256 s request i c e =
    let (free, after, same, period, seq) = started sha256 s request i e in
    let cs = chains_from_request request in
    rw (after, ap chains_from_request same)
      (rw (known cs) (refl, is_active_restored cs s.active_chains c free))
  where
    known : (cs : List ChainId) → all_known cs (activate cs s.active_chains) ≡ true
    known cs =
        all_known-of_contains cs (activate cs s.active_chains)
          (λ d k. ground (arith, get-activate d cs s.active_chains))

-- A request that needs a locked chain is refused, and nothing changes.
start_instance_refuses :
    (sha256 : Bytes → Bytes) (s : PublisherState) (request : XtRequest) (c : ChainId)
    → contains ℕ_discrete (chains_from_request request) c ≡ true
    → is_active s.active_chains c ≡ true
    → (start_instance sha256 s request ≡ (s, [], err invalid_request))
      ⊎ (start_instance sha256 s request ≡ (s, [], err cannot_start_instance))
unfolding start_instance
start_instance_refuses sha256 s request c k a =
    ground (arith, inactive_member c (chains_from_request request) s.active_chains)
