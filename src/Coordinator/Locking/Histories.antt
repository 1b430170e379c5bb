-- ===== src/Coordinator/Locking/Histories.antt =====
-- Every critical section of the coordinator does to the chains what the lock service does on commands.
use publisher.Base.{
  ◌++◌, ℕ, ◌≡◌, refl, sym, ap, subst, ◌∙◌, true, false, not, inl, inr, Option, none, some, List, [],
  ◌∷◌, map, arith, ℕ_discrete,
}
use publisher.Base.Tests.{Bool-cases, ltb, leb, if◌then◌else◌}
use publisher.Base.Lists.{length}
use publisher.Base.Maps.{get}
use publisher.Spec.Primitives.{Text, ChainId, to_string}
use publisher.Proto.Messages.{XtRequest}
use publisher.Coordinator.State.{
  External, CoordinatorState, PendingEntry, new, has_overlap, max_pending_queue_size,
}
use publisher.Coordinator.Requests.{extract_chains}
use publisher.Coordinator.Rounds.{
  prepare_xt, next_instance_id, record_vote, expired_ids, reap_timed_out,
}
use publisher.Coordinator.Queue.{submit, start_next, start_taken, take_next_ready}
use publisher.Coordinator.Queue.First.{Taken, nothing, first, take_next_ready-Taken}
use publisher.Coordinator.Settlement.{init_superblock, collect_proof, reap_expired_proofs}
use publisher.Coordinator.Exclusion.{IsExclusive}
use publisher.Coordinator.History.{
  Event, registered, initialized, period_began, requested, voted, drained, reaped, proof_received,
  finalized, proofs_reaped, rolled_back, request, step, run, NoCollisions,
}
use publisher.Coordinator.History.Soundness.{IsSound, new-IsSound, free_of_ready}
use publisher.Coordinator.History.Reachable.{step-IsSound}
use publisher.Coordinator.Locking.{
  Locks, Command, acquire, give_back, granted, obey, obey_all, decided_commands, locks_of,
  prepare_xt-locks, are_free-has_overlap, record_vote-locks, reap_each-locks,
}

obey_all-append :
    (ks ls : List Command) (f : Locks) → obey_all (ks ++ ls) f ≡ obey_all ls (obey_all ks f)
obey_all-append [] ls f = refl
obey_all-append (k ∷ ks) ls f = obey_all-append ks ls (obey k f)

module _ (ext : External) where
  abbrev pub id_of : CoordinatorState → XtRequest → Text
  id_of s req = to_string (next_instance_id ext s req)

  -- A request of too few chains asks for none.
  abbrev pub request_commands : CoordinatorState → XtRequest → List Command
  request_commands s req =
      if ltb (length (extract_chains req)) 2
      then []
      else acquire (id_of s req) (extract_chains req) ∷ []

  -- The entry that the queue gives out asks for its chains.
  abbrev pub entry_commands : CoordinatorState → Option PendingEntry → List Command
  entry_commands s none = []
  entry_commands s (some e) = acquire (id_of s e.xt_request) e.chains ∷ []

  -- What a critical section asks of the service.
  abbrev pub commands_of : CoordinatorState → Event → List Command
  commands_of s (requested req now) = request_commands s req
  commands_of s (voted bytes c b now) =
      let id = ext.hex_encode bytes in decided_commands id (record_vote ext s id bytes c b now).1
  commands_of s (drained now) = entry_commands s (take_next_ready s).1
  commands_of s (reaped now timeout) = map give_back (expired_ids s.active_xts now timeout)
  commands_of s other = []

  abbrev pub commands : CoordinatorState → List Event → List Command
  commands s [] = []
  commands s (e ∷ es) = commands_of s e ++ commands (step ext s e) es

  -- A transaction that starts is granted its chains, which are free.
  started-locks :
      (s : CoordinatorState) (now : ℕ) (req : XtRequest) (cs : List ChainId)
      → has_overlap s cs ≡ false
      → locks_of (prepare_xt ext s now req cs).0
        ≡ obey_all (acquire (id_of s req) cs ∷ []) (locks_of s)
  unfolding prepare_xt
  started-locks s now req cs free =
      prepare_xt-locks ext s now req cs
      ∙ ap (λ b. if b then granted (id_of s req) cs (locks_of s) else locks_of s)
          (sym (are_free-has_overlap s cs ∙ ap not free))

  held-locks :
      (s : CoordinatorState) (id : Text) (cs : List ChainId)
      → has_overlap s cs ≡ true
      → locks_of s ≡ obey_all (acquire id cs ∷ []) (locks_of s)
  held-locks s id cs busy =
      ap (λ b. if b then granted id cs (locks_of s) else locks_of s)
        (sym (are_free-has_overlap s cs ∙ ap not busy))

  queued_same :
      (s : CoordinatorState) (now : ℕ) (req : XtRequest) (cs : List ChainId)
      → has_overlap s cs ≡ true
      → locks_of (submit ext s now req cs).0 ≡ locks_of s
  unfolding submit
  queued_same s now req cs busy =
      rw busy (elim (Bool-cases (leb max_pending_queue_size (length s.pending_queue))) [
        | inl full ↦ rw full refl
        | inr room ↦ rw room refl
      ])

  submit-locks :
      (s : CoordinatorState) (now : ℕ) (req : XtRequest) (cs : List ChainId)
      → locks_of (submit ext s now req cs).0 ≡ obey_all (acquire (id_of s req) cs ∷ []) (locks_of s)
  unfolding submit
  submit-locks s now req cs = elim (Bool-cases (has_overlap s cs)) [
    | inr free ↦ rw (free, submit) (started-locks s now req cs free)
    | inl busy ↦ queued_same s now req cs busy ∙ held-locks s (id_of s req) cs busy
  ]

  request-locks :
      (s : CoordinatorState) (req : XtRequest) (now : ℕ)
      → locks_of (request ext s req now) ≡ obey_all (request_commands s req) (locks_of s)
  unfolding request
  request-locks s req now = elim (Bool-cases (ltb (length (extract_chains req)) 2)) [
    | inl few ↦ rw few refl
    | inr enough ↦ rw enough (submit-locks s now req (extract_chains req))
  ]

  Taken-locks :
      (s : CoordinatorState) (now : ℕ) (r : CoordinatorState × Option PendingEntry)
      → Taken s r
      → locks_of (start_taken ext now r).0 ≡ obey_all (entry_commands s r.1) (locks_of s)
  unfolding start_taken next_instance_id
  Taken-locks s now r (nothing e _) =
      subst (λ q. locks_of (start_taken ext now q).0 ≡ obey_all (entry_commands s q.1) (locks_of s))
        (sym e) refl
  Taken-locks s now r (first d before after split ready _ e) =
      subst (λ q. locks_of (start_taken ext now q).0 ≡ obey_all (entry_commands s q.1) (locks_of s))
        (sym e)
        (started-locks (record s { pending_queue = before ++ after }) now d.xt_request d.chains
          (free_of_ready s d (before ++ after) ready))

  same-locks :
      (s : CoordinatorState) (m : List (ChainId × Text))
      → m ≡ s.active_chains
      → ◌≡◌ {A = Locks} (λ c. get ℕ_discrete c m) (locks_of s)
  same-locks s m e = ap (λ n c. get ℕ_discrete c n) e

  step-locks :
      (s : CoordinatorState) (e : Event)
      → IsExclusive s
      → locks_of (step ext s e) ≡ obey_all (commands_of s e) (locks_of s)
  unfolding step start_next reap_timed_out
  step-locks s (registered client_id chain_id) v = refl
  step-locks s (initialized latest) v =
      same-locks s (init_superblock s latest).active_chains (ground arith)
  step-locks s period_began v = refl
  step-locks s (requested req now) v = request-locks s req now
  step-locks s (voted bytes c b now) v =
      record_vote-locks ext s (ext.hex_encode bytes) bytes c b now v
  step-locks s (drained now) v = Taken-locks s now (take_next_ready s) (take_next_ready-Taken s)
  step-locks s (reaped now timeout) v =
      reap_each-locks ext s (expired_ids s.active_xts now timeout) v
  step-locks s (proof_received number chain proof now) v =
      same-locks s (collect_proof s number chain proof now).0.active_chains (ground arith)
  step-locks s (finalized number) v = refl
  step-locks s (proofs_reaped now window) v =
      same-locks s (reap_expired_proofs s now window).0.active_chains (ground arith)
  step-locks s rolled_back v = refl

  run-locks :
      (s : CoordinatorState) (es : List Event)
      → IsSound s
      → NoCollisions ext s es
      → locks_of (run ext s es) ≡ obey_all (commands s es) (locks_of s)
  unfolding run
  run-locks s [] v n = refl
  run-locks s (e ∷ es) v n =
      run-locks (step ext s e) es (step-IsSound ext s e n.0 v) n.1
      ∙ ap (obey_all (commands (step ext s e) es)) (step-locks s e v.exclusive)
      ∙ sym (obey_all-append (commands_of s e) (commands (step ext s e) es) (locks_of s))

-- Over every history from the start, if no new instance id collides with an active one, each chain
-- is held as by a lock service that grants a set of chains if nobody holds any of them and else
-- refuses it, and takes back at once all that a holder has: it is asked for the chains of every
-- request of at least two chains and of every entry that the queue gives out, each under its
-- instance id, and is given back those of every transaction that is decided or times out.
pub refines_locks :
    (ext : External) (es : List Event)
    → NoCollisions ext new es
    → locks_of (run ext new es) ≡ obey_all (commands ext new es) (λ c. none)
unfolding new get
refines_locks ext es n = run-locks ext new es new-IsSound n
