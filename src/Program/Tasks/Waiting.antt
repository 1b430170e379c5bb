-- ===== src/Program/Tasks/Waiting.antt =====
-- Which changes of the state leave every waiting request without its chains.
use publisher.Base.{
  ℕ, ◌≡◌, refl, sym, ap, subst, Bool, true, false, not, inl, inr, Option, none, some, List, [], ◌∷◌,
  ◌++◌, arith, ℕ_discrete,
}
use publisher.Base.Tests.{leb, Bool-cases, Option-cases}
use publisher.Base.Lists.{length, contains, any, All}
use publisher.Base.Maps.{get, contains_key}
use publisher.Spec.Primitives.{Bytes, Text, text_discrete, ChainId}
use publisher.Proto.Messages.{XtRequest}
use publisher.Coordinator.State.{
  External, ActiveXt, CoordinatorState, PendingEntry, has_overlap, reserve, max_pending_queue_size,
}
use publisher.Coordinator.Rounds.{prepare_xt, record_vote, vote_on, conclude, reap_each}
use publisher.Coordinator.Queue.{is_ready, submit}
use publisher.Coordinator.Messaging.Drain.{IsIdle}
use publisher.Coordinator.Holds.{get-reserve}

-- The two parts of the state by which requests wait.
pub same-IsIdle :
    (s t : CoordinatorState)
    → t.active_chains ≡ s.active_chains
    → t.pending_queue ≡ s.pending_queue
    → IsIdle s
    → IsIdle t
unfolding is_ready has_overlap
same-IsIdle s t chains queue idle =
    subst (λ q. All (λ e. is_ready t e ≡ false) q) (sym queue)
      (subst
        (λ m.
          All (λ e. not (any (λ c. contains_key ℕ_discrete c m) e.chains) ≡ false) s.pending_queue)
        (sym chains) idle)

-- What is held stays held when more chains are.
held-reserve :
    (id : Text) (cs : List ChainId) (m : List (ChainId × Text)) (c : ChainId)
    → contains_key ℕ_discrete c m ≡ true
    → contains_key ℕ_discrete c (reserve id cs m) ≡ true
held-reserve id cs m c h = elim (Bool-cases (contains ℕ_discrete cs c)) [
  | inl taken ↦ ground (arith, get-reserve id c cs m)
  | inr other ↦ ground (arith, get-reserve id c cs m)
]

any-reserve :
    (id : Text) (held : List ChainId) (m : List (ChainId × Text)) (cs : List ChainId)
    → any (λ c. contains_key ℕ_discrete c m) cs ≡ true
    → any (λ c. contains_key ℕ_discrete c (reserve id held m)) cs ≡ true
unfolding any
any-reserve id held m [] h = h
any-reserve id held m (c ∷ cs) h =
    ground (arith, held-reserve id held m c, any-reserve id held m cs)

reserve-IsIdle :
    (id : Text) (held : List ChainId) (m : List (ChainId × Text)) (queue : List PendingEntry)
    → All (λ e. not (any (λ c. contains_key ℕ_discrete c m) e.chains) ≡ false) queue
    → All
        (λ e. not (any (λ c. contains_key ℕ_discrete c (reserve id held m)) e.chains) ≡ false)
        queue
reserve-IsIdle id held m [] h = tt
reserve-IsIdle id held m (e ∷ queue) (h, hs) =
    (ground (arith, any-reserve id held m e.chains), reserve-IsIdle id held m queue hs)

All-snoc {ℓ κ} :
    {A : Type ℓ} (P : A → Type κ) (xs : List A) (x : A) → All P xs → P x → All P (xs ++ x ∷ [])
All-snoc P [] x h p = (p, tt)
All-snoc P (y ∷ xs) x h p = (h.0, All-snoc P xs x h.1 p)

module _ (ext : External) where
  prepare_xt-IsIdle :
      (s : CoordinatorState) (now : ℕ) (req : XtRequest) (cs : List ChainId)
      → IsIdle s
      → IsIdle (prepare_xt ext s now req cs).0
  unfolding prepare_xt is_ready has_overlap
  prepare_xt-IsIdle s now req cs idle = reserve-IsIdle _ cs s.active_chains s.pending_queue idle

  pub submit-IsIdle :
      (s : CoordinatorState) (now : ℕ) (req : XtRequest) (cs : List ChainId)
      → IsIdle s
      → IsIdle (submit ext s now req cs).0
  unfolding submit is_ready has_overlap
  submit-IsIdle s now req cs idle = elim (Bool-cases (has_overlap s cs)) [
    | inr free ↦ rw free (prepare_xt-IsIdle s now req cs idle)
    | inl busy ↦ rw busy (elim (Bool-cases (leb max_pending_queue_size (length s.pending_queue))) [
      | inl full ↦ rw full idle
      | inr room ↦
          rw room (All-snoc (λ e. is_ready s e ≡ false) s.pending_queue _ idle (ap not busy))
    ])
  ]

  -- A vote that decides nothing releases nothing.
  conclude-IsIdle :
      (s : CoordinatorState) (id : Text) (bytes : Bytes) (now : ℕ) (d : Option Bool)
      → (conclude ext s id bytes now d).1 ≡ none
      → IsIdle s
      → IsIdle (conclude ext s id bytes now d).0
  unfolding conclude
  conclude-IsIdle s id bytes now none e idle = idle
  conclude-IsIdle s id bytes now (some d) e idle = cc

  vote_on-IsIdle :
      (s : CoordinatorState) (id : Text) (bytes : Bytes) (c : ChainId) (b : Bool) (now : ℕ)
      (xt : ActiveXt)
      → (vote_on ext s id bytes c b now xt).1 ≡ none
      → IsIdle s
      → IsIdle (vote_on ext s id bytes c b now xt).0
  unfolding vote_on
  vote_on-IsIdle s id bytes c b now xt = elim (Bool-cases (contains ℕ_discrete xt.chains c)) [
    | inr stranger ↦ rw stranger (λ e idle. idle)
    | inl member ↦ rw member (elim (Bool-cases (contains_key ℕ_discrete c xt.votes)) [
      | inl again ↦ rw again (λ e idle. idle)
      | inr first_vote ↦
          rw first_vote
            (λ e idle. conclude-IsIdle _ id bytes now _ e (same-IsIdle s _ refl refl idle))
    ])
  ]

  pub record_vote-IsIdle :
      (s : CoordinatorState) (id : Text) (bytes : Bytes) (c : ChainId) (b : Bool) (now : ℕ)
      → (record_vote ext s id bytes c b now).1 ≡ none
      → IsIdle s
      → IsIdle (record_vote ext s id bytes c b now).0
  unfolding record_vote
  record_vote-IsIdle s id bytes c b now = elim (Option-cases (get text_discrete id s.active_xts)) [
    | inl absent ↦ rw (absent, record_vote) (λ e idle. idle)
    | inr (xt, active) ↦
        rw (active, record_vote) (λ e idle. vote_on-IsIdle s id bytes c b now xt e idle)
  ]

  pub reap_each-IsIdle :
      (s : CoordinatorState) (ids : List Text)
      → (reap_each ext s ids).1 ≡ []
      → IsIdle s
      → IsIdle (reap_each ext s ids).0
  unfolding reap_each
  reap_each-IsIdle s [] e idle = idle
  reap_each-IsIdle s (id ∷ ids) e idle = cc
