-- ===== src/Coordinator/History/Reachable.antt =====
-- The invariant of the coordinator, from the start and over every interleaving.
use publisher.Base.{
  ℕ, ◌≤◌, ◌≡◌, refl, sym, subst, Bool, true, Option, none, some, List, [], ◌∷◌, arith, ℕ_discrete,
}
use mathlib.Core.Path.{subst₂}
use publisher.Base.Lists.{length, contains, All}
use publisher.Base.Maps.{get}
use publisher.Base.Results.{Result, ok, err}
use publisher.Spec.Primitives.{Bytes, Text, text_discrete, ChainId}
use publisher.Coordinator.ProofTypes.{B256}
use publisher.Coordinator.State.{External, ActiveXt, CoordinatorState, new, max_pending_queue_size}
use publisher.Coordinator.Rounds.{close_xt, record_vote, reap_each, reap_timed_out, expired_ids}
use publisher.Coordinator.Settlement.{init_superblock}
use publisher.Coordinator.Exclusion.{Exclusive, disjoint}
use publisher.Coordinator.Exclusion.Rounds.{record_vote-IsExclusive, reap_timed_out-IsExclusive}
use publisher.Coordinator.Voting.Rounds.{AllOpen, record_vote-AllOpen, reap_timed_out-AllOpen}
use publisher.Coordinator.History.{
  Event, registered, initialized, period_began, requested, voted, drained, reaped, proof_received,
  finalized, proofs_reaped, rolled_back, step, run, NoCollision, NoCollisions,
}
use publisher.Coordinator.History.Soundness.{
  SpansChains, IsSound, new-IsSound, request-IsSound, start_next-IsSound,
}

-- What the rounds and the queue are left as by the settlement of proofs.
init_superblock-IsSound :
    (s : CoordinatorState) (latest : Result Text (Option (ℕ × B256)))
    → IsSound s
    → IsSound (init_superblock s latest)
unfolding init_superblock
init_superblock-IsSound s (ok none) v = v
init_superblock-IsSound s (ok (some (n, h))) v = record {
  exclusive = v.exclusive;
  undecided = v.undecided;
  bounded = v.bounded;
  waiting = v.waiting;
}
init_superblock-IsSound s (err e) v = v

same-IsSound :
    (s t : CoordinatorState)
    → t.active_xts ≡ s.active_xts
    → t.active_chains ≡ s.active_chains
    → t.pending_queue ≡ s.pending_queue
    → IsSound s
    → IsSound t
same-IsSound s t xts chains queue v = record {
  exclusive = subst₂ Exclusive (sym xts) (sym chains) v.exclusive;
  undecided = subst AllOpen (sym xts) v.undecided;
  bounded = subst (λ q. length q ≤ max_pending_queue_size) (sym queue) v.bounded;
  waiting = subst (All (λ e. SpansChains e.chains)) (sym queue) v.waiting;
}

-- A vote and a timeout leave the queue alone.
record_vote-queue :
    (ext : External) (s : CoordinatorState) (id : Text) (bytes : Bytes) (c : ChainId) (b : Bool)
    (now : ℕ)
    → (record_vote ext s id bytes c b now).0.pending_queue ≡ s.pending_queue
unfolding record_vote
record_vote-queue ext s id bytes c b now = ground arith

reap_each-queue :
    (ext : External) (s : CoordinatorState) (ids : List Text)
    → (reap_each ext s ids).0.pending_queue ≡ s.pending_queue
unfolding reap_each
reap_each-queue ext s [] = refl
reap_each-queue ext s (id ∷ ids) = reap_each-queue ext (close_xt s id) ids

voted-IsSound :
    (ext : External) (s : CoordinatorState) (id : Text) (bytes : Bytes) (c : ChainId) (b : Bool)
    (now : ℕ)
    → IsSound s
    → IsSound (record_vote ext s id bytes c b now).0
voted-IsSound ext s id bytes c b now v =
    let queue = record_vote-queue ext s id bytes c b now in
    record {
      exclusive = record_vote-IsExclusive ext s id bytes c b now v.exclusive;
      undecided = record_vote-AllOpen ext s id bytes c b now v.undecided;
      bounded = subst (λ q. length q ≤ max_pending_queue_size) (sym queue) v.bounded;
      waiting = subst (All (λ e. SpansChains e.chains)) (sym queue) v.waiting;
    }

reaped-IsSound :
    (ext : External) (s : CoordinatorState) (now timeout : ℕ)
    → IsSound s
    → IsSound (reap_timed_out ext s now timeout).0
unfolding reap_timed_out
reaped-IsSound ext s now timeout v =
    let queue = reap_each-queue ext s (expired_ids s.active_xts now timeout) in
    record {
      exclusive = reap_timed_out-IsExclusive ext s now timeout v.exclusive;
      undecided = reap_timed_out-AllOpen ext s now timeout v.undecided;
      bounded = subst (λ q. length q ≤ max_pending_queue_size) (sym queue) v.bounded;
      waiting = subst (All (λ e. SpansChains e.chains)) (sym queue) v.waiting;
    }

-- Every critical section keeps the coordinator sound, if it makes no id that is in use.
pub step-IsSound :
    (ext : External) (s : CoordinatorState) (e : Event)
    → NoCollision ext s e
    → IsSound s
    → IsSound (step ext s e)
unfolding step
step-IsSound ext s (registered client_id chain_id) n v = same-IsSound s _ refl refl refl v
step-IsSound ext s (initialized latest) n v = init_superblock-IsSound s latest v
step-IsSound ext s period_began n v = same-IsSound s _ refl refl refl v
step-IsSound ext s (requested req now) n v = request-IsSound ext s v req now n
step-IsSound ext s (voted bytes c b now) n v =
    voted-IsSound ext s (ext.hex_encode bytes) bytes c b now v
step-IsSound ext s (drained now) n v = start_next-IsSound ext s v now n
step-IsSound ext s (reaped now timeout) n v = reaped-IsSound ext s now timeout v
step-IsSound ext s (proof_received number chain proof now) n v =
    same-IsSound s _ (ground arith) (ground arith) (ground arith) v
step-IsSound ext s (finalized number) n v = same-IsSound s _ refl refl refl v
step-IsSound ext s (proofs_reaped now window) n v =
    same-IsSound s _ (ground arith) (ground arith) (ground arith) v
step-IsSound ext s rolled_back n v = same-IsSound s _ refl refl refl v

-- Over every history without a collision of instance ids a sound state stays sound: every active
-- transaction holds exactly its chains and is undecided, and the queue is bounded.
pub run-IsSound :
    (ext : External) (s : CoordinatorState) (es : List Event)
    → NoCollisions ext s es
    → IsSound s
    → IsSound (run ext s es)
unfolding run
run-IsSound ext s [] n v = v
run-IsSound ext s (e ∷ es) n v = run-IsSound ext (step ext s e) es n.1 (step-IsSound ext s e n.0 v)

-- From the start and however the critical sections interleave, two active transactions that share a
-- chain are the same one, if no new instance id collides with an active one.
run_disjoint :
    (ext : External) (es : List Event) (i j : Text) (xt yt : ActiveXt) (c : ChainId)
    → NoCollisions ext new es
    → get text_discrete i (run ext new es).active_xts ≡ some xt
    → get text_discrete j (run ext new es).active_xts ≡ some yt
    → contains ℕ_discrete xt.chains c ≡ true
    → contains ℕ_discrete yt.chains c ≡ true
    → i ≡ j
run_disjoint ext es i j xt yt c n =
    disjoint (run ext new es) i j xt yt c (run-IsSound ext new es n new-IsSound).exclusive
