-- ===== src/Coordinator/Settlement/Expiry.antt =====
-- crates/coordinator/src/coordinator.rs: the collection of proofs is timed, and the number under
-- which it is submitted follows the last finalized one.
use publisher.Base.{
  ℕ, ◌+◌, ◌≤◌, ◌≡◌, refl, sym, ap, subst, ◌∙◌, true, false, not, ◌&&◌, inl, inr, Option, none, some,
  List, [], ◌∷◌, arith, ℕ_discrete,
}
use publisher.Base.Tests.{ltb, leb, if◌then◌else◌, Bool-cases}
use publisher.Base.Lists.{length, is_empty}
use publisher.Base.Maps.{is_some, insert}
use publisher.Base.Words.{add64}
use publisher.Base.Results.{ok, err}
use publisher.Spec.Primitives.{Text}
use publisher.Coordinator.ProofTypes.{ProofData}
use publisher.Coordinator.State.{External, ChainProof, CoordinatorState, PendingEntry, new}
use publisher.Coordinator.Rounds.{close_xt, prepare_xt, reap_each, expired_ids}
use publisher.Coordinator.Queue.{start_next, start_taken, take_next_ready}
use publisher.Coordinator.Queue.First.{Taken, nothing, first, take_next_ready-Taken}
use publisher.Coordinator.History.{
  Event, registered, initialized, period_began, requested, voted, drained, reaped, proof_received,
  finalized, proofs_reaped, rolled_back, step, run,
}
use publisher.Coordinator.Settlement.{
  start_collection, collect_proof, is_expired, reap_expired_proofs, begin_rollback,
}

-- The next superblock follows the last finalized one, and a clock runs while proofs are held.
pub record IsTimed (s : CoordinatorState) : Type 0 where
  pub next : s.next_superblock_number ≡ add64 s.last_finalized_superblock_number 1
  pub timed : is_empty s.pending_proofs ≡ not (is_some s.proof_collection_started)

insert-is_empty :
    (k : ℕ) (v : ChainProof) (m : List (ℕ × ChainProof))
    → is_empty (insert ℕ_discrete k v m) ≡ false
unfolding insert
insert-is_empty k v [] = refl
insert-is_empty k v ((i, w) ∷ m) = ground arith

start_collection-is_some :
    (started : Option ℕ) (now : ℕ) → not (is_some (start_collection started now)) ≡ false
unfolding start_collection
start_collection-is_some none now = refl
start_collection-is_some (some t) now = refl

collect_proof-IsTimed :
    (s : CoordinatorState) (n chain : ℕ) (proof : ProofData) (now : ℕ)
    → IsTimed s
    → IsTimed (collect_proof s n chain proof now).0
unfolding collect_proof
collect_proof-IsTimed s n chain proof now v =
    let entry : ChainProof = record { superblock_number = n; proof_data = proof } in
    let stored = insert ℕ_discrete chain entry s.pending_proofs in
    let total = length s.chain_to_client in
    elim (Bool-cases (ltb 0 total && leb total (length stored))) [
      | inl ready ↦ rw ready (record { next = v.next; timed = refl })
      | inr waiting ↦ rw waiting (record {
        next = v.next;
        timed =
            insert-is_empty chain entry s.pending_proofs
            ∙ sym (start_collection-is_some s.proof_collection_started now);
      })
    ]

reap_expired_proofs-IsTimed :
    (s : CoordinatorState) (now window : ℕ)
    → IsTimed s
    → IsTimed (reap_expired_proofs s now window).0
unfolding reap_expired_proofs
reap_expired_proofs-IsTimed s now window v =
    elim (Bool-cases (is_expired s.proof_collection_started now window)) [
      | inl passed ↦ rw passed (record { next = v.next; timed = refl })
      | inr open_yet ↦ rw open_yet v
    ]

-- What neither touches the numbers nor the proofs held.
abbrev SettlesAs : CoordinatorState → CoordinatorState → Type 0
SettlesAs s t =
    (t.next_superblock_number ≡ s.next_superblock_number)
    × (t.last_finalized_superblock_number ≡ s.last_finalized_superblock_number)
    × (t.pending_proofs ≡ s.pending_proofs)
    × (t.proof_collection_started ≡ s.proof_collection_started)

kept-IsTimed : (s t : CoordinatorState) → SettlesAs s t → IsTimed s → IsTimed t
kept-IsTimed s t (n, l, p, c) v = record {
  next = n ∙ v.next ∙ ap (λ k. add64 k 1) (sym l);
  timed = ap is_empty p ∙ v.timed ∙ ap (λ o. not (is_some o)) (sym c);
}

start_taken-SettlesAs :
    (ext : External) (now : ℕ) (s : CoordinatorState) (r : CoordinatorState × Option PendingEntry)
    → Taken s r
    → SettlesAs s (start_taken ext now r).0
unfolding start_taken prepare_xt
start_taken-SettlesAs ext now s r (nothing e _) =
    subst (λ q. SettlesAs s (start_taken ext now q).0) (sym e) (refl, refl, refl, refl)
start_taken-SettlesAs ext now s r (first d before after split ready _ e) =
    subst (λ q. SettlesAs s (start_taken ext now q).0) (sym e) (refl, refl, refl, refl)

start_next-SettlesAs :
    (ext : External) (s : CoordinatorState) (now : ℕ) → SettlesAs s (start_next ext s now).0
unfolding start_next
start_next-SettlesAs ext s now =
    start_taken-SettlesAs ext now s (take_next_ready s) (take_next_ready-Taken s)

reap_each-SettlesAs :
    (ext : External) (s : CoordinatorState) (ids : List Text) → SettlesAs s (reap_each ext s ids).0
unfolding reap_each close_xt
reap_each-SettlesAs ext s [] = (refl, refl, refl, refl)
reap_each-SettlesAs ext s (id ∷ ids) = reap_each-SettlesAs ext (close_xt s id) ids

step-IsTimed :
    (ext : External) (s : CoordinatorState) (e : Event) → IsTimed s → IsTimed (step ext s e)
unfolding step
step-IsTimed ext s (registered client_id chain_id) v = record { next = v.next; timed = v.timed }
step-IsTimed ext s (initialized (ok (some (n, h)))) v = record { next = refl; timed = v.timed }
step-IsTimed ext s (initialized (ok none)) v = v
step-IsTimed ext s (initialized (err e)) v = v
step-IsTimed ext s period_began v = record { next = v.next; timed = v.timed }
step-IsTimed ext s (requested req now) v =
    kept-IsTimed s _ (ground arith, ground arith, ground arith, ground arith) v
step-IsTimed ext s (voted bytes c b now) v =
    kept-IsTimed s _ (ground arith, ground arith, ground arith, ground arith) v
step-IsTimed ext s (drained now) v = kept-IsTimed s _ (start_next-SettlesAs ext s now) v
step-IsTimed ext s (reaped now timeout) v =
    kept-IsTimed s _ (reap_each-SettlesAs ext s (expired_ids s.active_xts now timeout)) v
step-IsTimed ext s (proof_received n chain proof now) v =
    collect_proof-IsTimed s n chain proof now v
step-IsTimed ext s (finalized n) v = record { next = refl; timed = v.timed }
step-IsTimed ext s (proofs_reaped now window) v = reap_expired_proofs-IsTimed s now window v
step-IsTimed ext s rolled_back v = record { next = refl; timed = v.timed }

run-IsTimed_from :
    (ext : External) (s : CoordinatorState) (es : List Event) → IsTimed s → IsTimed (run ext s es)
unfolding run
run-IsTimed_from ext s [] v = v
run-IsTimed_from ext s (e ∷ es) v = run-IsTimed_from ext (step ext s e) es (step-IsTimed ext s e v)

-- Over every history of critical sections from the start, registrations and complete collections
-- included, the next superblock has the number after the last finalized one, and a clock runs
-- exactly while proofs are held.
pub run-IsTimed : (ext : External) (es : List Event) → IsTimed (run ext new es)
unfolding new add64
run-IsTimed ext es = run-IsTimed_from ext new es (record { next = refl; timed = refl })

-- `Coordinator::reap_expired_proofs` rolls back if the window has passed.
unfoldable check_window : CoordinatorState → ℕ → ℕ → CoordinatorState
unfolding reap_expired_proofs begin_rollback
check_window s now window =
    let (s', expired) = reap_expired_proofs s now window in
    if expired then (begin_rollback s').0 else s'

expired_since :
    (o : Option ℕ) (started now window : ℕ)
    → o ≡ some started
    → started + window ≤ now
    → is_expired o now window ≡ true
unfolding is_expired
expired_since o started now window e late = ground arith

-- A check of the proof window, at least a window after the clock of the proofs held has started,
-- drops them all, stops the clock, and leaves the last finalized number to be announced.
check_window-expired :
    (s : CoordinatorState) (started now window : ℕ)
    → IsTimed s
    → s.proof_collection_started ≡ some started
    → started + window ≤ now
    → ((check_window s now window).pending_proofs ≡ [])
      × ((check_window s now window).proof_collection_started ≡ none)
      × ((begin_rollback (check_window s now window)).1.last_finalized_superblock_number
          ≡ s.last_finalized_superblock_number)
unfolding check_window
check_window-expired s started now window v e late =
    rw (expired_since s.proof_collection_started started now window e late) (refl, refl, refl)
