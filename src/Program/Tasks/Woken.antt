-- ===== src/Program/Tasks/Woken.antt =====
-- A turn leaves no request ready, or its task is to look through the queue.
use publisher.Base.{
  ℕ, ◌≡◌, refl, sym, subst, ◌∙◌, Bool, true, false, ◌||◌, ◌⊎◌, inl, inr, Option, none, some, List,
  [], ◌∷◌, ◌++◌, arith,
}
use publisher.Base.Tests.{ltb, Bool-cases}
use publisher.Base.Lists.{length, is_empty, any}
use publisher.Base.Results.{Result, ok, err}
use publisher.Spec.Primitives.{Bytes, Text, ChainId}
use publisher.Proto.Messages.{
  Message, Payload, XtRequest, HandshakeRequest, vote, xt_request, handshake_request,
}
use publisher.Coordinator.ProofTypes.{B256}
use publisher.Coordinator.State.{External, CoordinatorState, PendingEntry, register_chain}
use publisher.Coordinator.Rounds.{record_vote, expired_ids, reap_timed_out}
use publisher.Coordinator.Requests.{extract_chains}
use publisher.Coordinator.Queue.{
  Submission, rejected, queued, started, submit, start_taken, start_next, take_next_ready,
}
use publisher.Coordinator.Queue.First.{Taken, nothing, first, take_next_ready-Taken}
use publisher.Coordinator.Settlement.{
  begin_period, init_superblock, collect_proof, finalize, reap_expired_proofs, begin_rollback,
}
use publisher.Coordinator.Service.{Coordinator, init_from_l1, inc_messages}
use publisher.Coordinator.Messaging.Drain.{IsIdle}
use publisher.Coordinator.ChainIds.{ParseChainIdError, parse_chain_id}
use publisher.Coordinator.Dispatch.{register_parsed}
use publisher.Program.{
  Call, fetched, received, connected, period_ticked, reaper_ticked, submitted, submission_ended,
}
use publisher.Program.Tasks.{
  Stage, serving, proving, draining, expiring, rolling_back, Turn, turn, call_turn, decoded_turn,
  message_turn, payload_turn, handshake_turn, request_turn, queued_turn, vote_turn, decided_stages,
  reaped_stages, drained_stages, abort_stages,
}
use publisher.Program.Tasks.Written.{submitted_turn-state}
use publisher.Program.Tasks.Waiting.{
  same-IsIdle, submit-IsIdle, record_vote-IsIdle, reap_each-IsIdle,
}

-- Will the task look through the queue?
unfoldable pub is_draining : Stage → Bool
is_draining draining = true
is_draining other = false

unfoldable pub drains : List Stage → Bool
unfolding is_draining
drains = any is_draining

pub any-append {ℓ} :
    {A : Type ℓ} (p : A → Bool) (xs ys : List A) → any p (xs ++ ys) ≡ (any p xs || any p ys)
unfolding any
any-append p [] ys = refl
any-append p (x ∷ xs) ys = ground (arith, any-append p xs ys)

or_true : (b : Bool) → (b || true) ≡ true
or_true true = refl
or_true false = refl

-- What a task leaves when it gives the turn away: no request is ready, or it will look again.
abbrev pub Woken : Coordinator → List Stage → Type 0
Woken c next = (drains next ≡ true) ⊎ IsIdle c.state

abbrev pub AfterTurn : Turn → Type 0
AfterTurn t = Woken t.0 t.2

module _ (ext : External) where
  vote_Woken :
      (c : Coordinator) (r : CoordinatorState × Option (Bool × ℕ × Bytes))
      → (r.1 ≡ none → IsIdle r.0)
      → Woken (record c { state = r.0 }) (decided_stages r.1)
  unfolding drains any is_draining
  vote_Woken c (s, none) h = inr (h refl)
  vote_Woken c (s, some (d, latency, message)) h = inl refl

  reaped_Woken :
      (c : Coordinator) (r : CoordinatorState × List (Text × Bytes))
      → (r.1 ≡ [] → IsIdle r.0)
      → Woken (record c { state = r.0 }) (reaped_stages r.1)
  unfolding drains any is_draining
  reaped_Woken c (s, []) h = inr (h refl)
  reaped_Woken c (s, (id, m) ∷ ms) h = inl (
      any-append is_draining (abort_stages ms) (draining ∷ expiring ∷ [])
      ∙ or_true (any is_draining (abort_stages ms)))

  drained_Woken :
      (c : Coordinator) (now : ℕ) (r : CoordinatorState × Option PendingEntry)
      → Taken c.state r
      → Woken
          (record c { state = (start_taken ext now r).0 })
          (drained_stages (start_taken ext now r).1)
  unfolding start_taken drains any is_draining
  drained_Woken c now r (nothing e rest) =
      subst
        (λ q.
          Woken (record c { state = (start_taken ext now q).0 })
            (drained_stages (start_taken ext now q).1))
        (sym e) (inr rest)
  drained_Woken c now r (first e before after split ready _ eq) =
      subst
        (λ q.
          Woken (record c { state = (start_taken ext now q).0 })
            (drained_stages (start_taken ext now q).1))
        (sym eq) (inl refl)

  queued_turn-AfterTurn :
      (c : Coordinator) (r : Submission) → IsIdle c.state → AfterTurn (queued_turn c r)
  queued_turn-AfterTurn c rejected idle = inr idle
  queued_turn-AfterTurn c queued idle = inr idle
  queued_turn-AfterTurn c (started id message) idle = inr idle

  request_turn-AfterTurn :
      (c : Coordinator) (r : XtRequest) (now : ℕ)
      → IsIdle c.state
      → AfterTurn (request_turn ext c r now)
  unfolding request_turn
  request_turn-AfterTurn c r now idle = elim (Bool-cases (ltb (length (extract_chains r)) 2)) [
    | inl few ↦ rw few (inr idle)
    | inr enough ↦ rw enough (
        queued_turn-AfterTurn _ (submit ext c.state now r (extract_chains r)).1
          (submit-IsIdle ext c.state now r (extract_chains r) idle))
  ]

  register_parsed-IsIdle :
      (c : Coordinator) (client_id : Text) (parsed : Result ParseChainIdError ChainId)
      → IsIdle c.state
      → IsIdle (register_parsed c client_id parsed).state
  unfolding register_parsed
  register_parsed-IsIdle c client_id (ok chain_id) idle =
      same-IsIdle c.state (register_chain c.state client_id chain_id) refl refl idle
  register_parsed-IsIdle c client_id (err e) idle = idle

  handshake_turn-AfterTurn :
      (c : Coordinator) (client_id : Text) (r : HandshakeRequest)
      → IsIdle c.state
      → AfterTurn (handshake_turn ext c client_id r)
  unfolding handshake_turn
  handshake_turn-AfterTurn c client_id r idle = elim (Bool-cases (is_empty r.client_id)) [
    | inl none_given ↦ rw none_given (inr idle)
    | inr given ↦
        rw given (inr (register_parsed-IsIdle c client_id (parse_chain_id r.client_id) idle))
  ]

  init_from_l1-IsIdle :
      (c : Coordinator) (latest : Result Text (Option (ℕ × B256)))
      → IsIdle c.state
      → IsIdle (init_from_l1 c latest).state
  unfolding init_from_l1 init_superblock
  init_from_l1-IsIdle c latest idle =
      same-IsIdle c.state (init_from_l1 c latest).state (ground arith) (ground arith) idle

  payload_turn-AfterTurn :
      (c : Coordinator) (client_id : Text) (p : Payload) (now : ℕ)
      → IsIdle c.state
      → AfterTurn (payload_turn ext c client_id p now)
  unfolding payload_turn vote_turn
  payload_turn-AfterTurn c client_id (vote v) now idle =
      vote_Woken c
        (record_vote ext c.state (ext.hex_encode v.instance_id) v.instance_id v.chain_id v.vote now)
        (λ e.
          record_vote-IsIdle ext c.state (ext.hex_encode v.instance_id) v.instance_id v.chain_id
            v.vote now e idle)
  payload_turn-AfterTurn c client_id (xt_request r) now idle = request_turn-AfterTurn c r now idle
  payload_turn-AfterTurn c client_id (handshake_request r) now idle =
      handshake_turn-AfterTurn c client_id r idle
  payload_turn-AfterTurn c client_id other now idle = inr idle

  message_turn-AfterTurn :
      (c : Coordinator) (client_id : Text) (p : Option Payload) (now : ℕ)
      → IsIdle c.state
      → AfterTurn (message_turn ext c client_id p now)
  unfolding message_turn
  message_turn-AfterTurn c client_id none now idle = inr idle
  message_turn-AfterTurn c client_id (some p) now idle =
      payload_turn-AfterTurn c client_id p now idle

  decoded_turn-AfterTurn :
      (c : Coordinator) (client_id : Text) (m : Option Message) (now : ℕ)
      → IsIdle c.state
      → AfterTurn (decoded_turn ext c client_id m now)
  unfolding decoded_turn
  decoded_turn-AfterTurn c client_id none now idle = inr idle
  decoded_turn-AfterTurn c client_id (some m) now idle =
      message_turn-AfterTurn c client_id m.payload now idle

  call_turn-AfterTurn :
      (c : Coordinator) (call : Call) (now : ℕ)
      → IsIdle c.state
      → AfterTurn (call_turn ext c call now)
  unfolding call_turn
  call_turn-AfterTurn c (fetched latest) now idle = inr (init_from_l1-IsIdle c latest idle)
  call_turn-AfterTurn c (received client_id frame _) now idle =
      decoded_turn-AfterTurn (inc_messages c) client_id (ext.decode frame) now idle
  call_turn-AfterTurn c (connected client_id) now idle =
      inr (register_parsed-IsIdle c client_id (parse_chain_id client_id) idle)
  call_turn-AfterTurn c period_ticked now idle =
      inr (same-IsIdle c.state (begin_period c.state).0 refl refl idle)
  call_turn-AfterTurn c (reaper_ticked _ _) now idle =
      reaped_Woken c (reap_timed_out ext c.state now c.scp_timeout) (λ e.
        reap_each-IsIdle ext c.state (expired_ids c.state.active_xts now c.scp_timeout) e idle)
  call_turn-AfterTurn c (submitted body _) now idle =
      inr (subst IsIdle (sym (submitted_turn-state ext c body)) idle)
  call_turn-AfterTurn c (submission_ended n true) now idle =
      inr (same-IsIdle c.state (finalize c.state n) refl refl idle)
  call_turn-AfterTurn c (submission_ended n false) now idle = inr idle

  -- After any turn, unless something is ready and another task is to see to it.
  pub turn-AfterTurn :
      (c : Coordinator) (now : ℕ) (s : Stage)
      → (is_draining s ≡ true) ⊎ IsIdle c.state
      → AfterTurn (turn ext c now s)
  unfolding turn is_draining start_next collect_proof reap_expired_proofs
  turn-AfterTurn c now draining h =
      drained_Woken c now (take_next_ready c.state) (take_next_ready-Taken c.state)
  turn-AfterTurn c now other (inl e) = cc
  turn-AfterTurn c now (serving call) (inr idle) = call_turn-AfterTurn c call now idle
  turn-AfterTurn c now (proving n chain_id submission) (inr idle) = inr (
      same-IsIdle c.state (collect_proof c.state n chain_id submission now).0 (ground arith)
        (ground arith) idle)
  turn-AfterTurn c now expiring (inr idle) = inr (
      same-IsIdle c.state (reap_expired_proofs c.state now c.proof_window).0 (ground arith)
        (ground arith) idle)
  turn-AfterTurn c now rolling_back (inr idle) =
      inr (same-IsIdle c.state (begin_rollback c.state).0 refl refl idle)
  turn-AfterTurn c now other (inr idle) = inr idle
