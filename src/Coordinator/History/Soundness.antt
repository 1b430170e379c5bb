-- ===== src/Coordinator/History/Soundness.antt =====
-- The invariant of the coordinator, over every interleaving of its critical sections.
use publisher.Base.{
  ℕ, ◌≤◌, ◌≡◌, sym, ap, subst, true, false, inl, inr, Option, List, [], ◌∷◌, ◌++◌, arith,
  ℕ_discrete,
}
use publisher.Base.Tests.{ltb, ltb→le, leb, Bool-cases}
use publisher.Base.Lists.{length, length-append, IsDistinct, All, All-append, All-middle}
use publisher.Base.Maps.{get}
use publisher.Spec.Primitives.{ChainId}
use publisher.Spec.Instance.Chains.{chains_from_request-IsDistinct}
use publisher.Proto.Messages.{XtRequest}
use publisher.Coordinator.State.{
  External, PendingEntry, CoordinatorState, new, has_overlap, max_pending_queue_size,
}
use publisher.Coordinator.Requests.{
  extract_chains, proto_to_spec_xt, extract_chains-proto_to_spec_xt,
}
use publisher.Coordinator.Rounds.{prepare_xt, next_instance_id}
use publisher.Coordinator.Queue.{submit, start_taken, start_next, take_next_ready, is_ready}
use publisher.Coordinator.Queue.First.{Taken, nothing, first, take_next_ready-Taken}
use publisher.Coordinator.Exclusion.{IsExclusive}
use publisher.Coordinator.Exclusion.Rounds.{prepare_xt-IsExclusive}
use publisher.Coordinator.Voting.Rounds.{AllOpen, prepare_xt-AllOpen}
use publisher.Coordinator.History.{drained, request, IsFresh, IsFreshEntry, NoCollision}

-- A request that may wait: at least two chains, each once.
abbrev pub SpansChains : List ChainId → Type 0
SpansChains cs = IsDistinct ℕ_discrete cs × (2 ≤ length cs)

pub record IsSound (s : CoordinatorState) : Type 0 where
  pub exclusive : IsExclusive s
  pub undecided : AllOpen s.active_xts
  pub bounded : length s.pending_queue ≤ max_pending_queue_size
  pub waiting : All (λ e. SpansChains e.chains) s.pending_queue

pub new-IsSound : IsSound new
unfolding new get
new-IsSound = record {
  exclusive = record { reserved = λ id xt c e k. cc; backed = λ c id e. absurd (cc) };
  undecided = λ id xt e. absurd (cc);
  bounded = omega arith;
  waiting = tt;
}

module _ (ext : External) (s : CoordinatorState) (v : IsSound s) where
  -- The queue is no part of what the rounds change.
  prepare_xt-IsSound :
      (now : ℕ) (req : XtRequest) (chains : List ChainId)
      → IsFresh ext s req
      → has_overlap s chains ≡ false
      → SpansChains chains
      → IsSound (prepare_xt ext s now req chains).0
  unfolding prepare_xt
  prepare_xt-IsSound now req chains new free spans = record {
    exclusive = prepare_xt-IsExclusive ext s now req chains new free v.exclusive;
    undecided = prepare_xt-AllOpen ext s now req chains spans.0 spans.1 v.undecided;
    bounded = v.bounded;
    waiting = v.waiting;
  }

  enqueue-IsSound :
      (req : XtRequest) (chains : List ChainId)
      → leb max_pending_queue_size (length s.pending_queue) ≡ false
      → SpansChains chains
      → IsSound (record s {
        pending_queue = s.pending_queue ++ record { xt_request = req; chains = chains } ∷ [];
      })
  enqueue-IsSound req chains room spans = record {
    exclusive = v.exclusive;
    undecided = v.undecided;
    bounded =
        ground (
          arith,
          length-append s.pending_queue (record { xt_request = req; chains = chains } ∷ []),
        );
    waiting = All-append (λ e. SpansChains e.chains) s.pending_queue _ v.waiting (spans, tt);
  }

  submit-IsSound :
      (now : ℕ) (req : XtRequest) (chains : List ChainId)
      → IsFresh ext s req
      → SpansChains chains
      → IsSound (submit ext s now req chains).0
  unfolding submit
  submit-IsSound now req chains new spans = elim (Bool-cases (has_overlap s chains)) [
    | inr free ↦ rw free (prepare_xt-IsSound now req chains new free spans)
    | inl busy ↦ rw busy (elim (Bool-cases (leb max_pending_queue_size (length s.pending_queue))) [
      | inl full ↦ rw full v
      | inr room ↦ rw room (enqueue-IsSound req chains room spans)
    ])
  ]

extract_chains-IsDistinct : (req : XtRequest) → IsDistinct ℕ_discrete (extract_chains req)
extract_chains-IsDistinct req =
    rw (extract_chains-proto_to_spec_xt req)
      (chains_from_request-IsDistinct (proto_to_spec_xt req) 0).0

-- The queue has no part in the next id, nor in the overlap.
IsFresh-dequeue :
    (ext : External) (s : CoordinatorState) (q : List PendingEntry) (req : XtRequest)
    → IsFresh ext s req
    → IsFresh ext (record s { pending_queue = q }) req
unfolding next_instance_id
IsFresh-dequeue ext s q req h = h

pub free_of_ready :
    (s : CoordinatorState) (e : PendingEntry) (q : List PendingEntry)
    → is_ready s e ≡ true
    → has_overlap (record s { pending_queue = q }) e.chains ≡ false
unfolding is_ready has_overlap
free_of_ready s e q h = ground arith

module _ (ext : External) (s : CoordinatorState) (v : IsSound s) where
  pub request-IsSound :
      (req : XtRequest) (now : ℕ) → IsFresh ext s req → IsSound (request ext s req now)
  unfolding request
  request-IsSound req now new = elim (Bool-cases (ltb (length (extract_chains req)) 2)) [
    | inl few ↦ rw few v
    | inr enough ↦ rw enough (
        submit-IsSound ext s v now req (extract_chains req) new
          (extract_chains-IsDistinct req, ltb→le _ _ enough))
  ]

  dequeue-IsSound :
      (e : PendingEntry) (before after : List PendingEntry)
      → s.pending_queue ≡ before ++ e ∷ after
      → SpansChains e.chains × IsSound (record s { pending_queue = before ++ after })
  dequeue-IsSound e before after split =
      let (spans, rest) =
        All-middle (λ d. SpansChains d.chains) before e after
          (subst (All (λ d. SpansChains d.chains)) split v.waiting) in
      (
        spans,
        record {
          exclusive = v.exclusive;
          undecided = v.undecided;
          bounded = omega (
            arith,
            v.bounded,
            ap length split,
            length-append before (e ∷ after),
            length-append before after,
          );
          waiting = rest;
        },
      )

  Taken-IsSound :
      (now : ℕ) (r : CoordinatorState × Option PendingEntry)
      → Taken s r
      → IsFreshEntry ext s r.1
      → IsSound (start_taken ext now r).0
  unfolding start_taken
  Taken-IsSound now r (nothing e _) fresh = subst (λ q. IsSound (start_taken ext now q).0) (sym e) v
  Taken-IsSound now r (first d before after split ready _ e) fresh =
      let (spans, w) = dequeue-IsSound d before after split in
      subst (λ q. IsSound (start_taken ext now q).0) (sym e)
        (prepare_xt-IsSound ext (record s { pending_queue = before ++ after }) w now d.xt_request
          d.chains
          (IsFresh-dequeue ext s (before ++ after) d.xt_request
            (subst (IsFreshEntry ext s) (ap (λ q. q.1) e) fresh))
          (free_of_ready s d (before ++ after) ready) spans)

  pub start_next-IsSound :
      (now : ℕ) → NoCollision ext s (drained now) → IsSound (start_next ext s now).0
  unfolding start_next
  start_next-IsSound now fresh =
      Taken-IsSound now (take_next_ready s) (take_next_ready-Taken s) fresh
