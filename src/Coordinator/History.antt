-- ===== src/Coordinator/History.antt =====
-- The critical sections of the coordinator as events, in the order in which they get the lock. A
-- handler is one event or a series of them; tasks may interleave between events in any way.
pub mod Soundness
pub mod Reachable
pub mod Frame
use publisher.Base.{ℕ, ◌≡◌, Bool, Option, none, some, List, [], ◌∷◌}
use publisher.Base.Tests.{ltb, if◌then◌else◌}
use publisher.Base.Lists.{length}
use publisher.Base.Maps.{get}
use publisher.Base.Results.{Result}
use publisher.Spec.Primitives.{Bytes, Text, text_discrete, ChainId, to_string}
use publisher.Proto.Messages.{XtRequest}
use publisher.Coordinator.ProofTypes.{B256, ProofData}
use publisher.Coordinator.State.{External, PendingEntry, CoordinatorState, register_chain}
use publisher.Coordinator.Requests.{extract_chains}
use publisher.Coordinator.Rounds.{next_instance_id, record_vote, reap_timed_out}
use publisher.Coordinator.Queue.{submit, start_next, take_next_ready}
use publisher.Coordinator.Settlement.{
  begin_period, init_superblock, collect_proof, finalize, reap_expired_proofs, begin_rollback,
}

pub data Event : Type 0 where
  registered : Text → ChainId → Event
  initialized : Result Text (Option (ℕ × B256)) → Event
  period_began : Event
  requested : XtRequest → ℕ → Event
  voted : Bytes → ChainId → Bool → ℕ → Event
  drained : ℕ → Event
  reaped : ℕ → ℕ → Event
  proof_received : ℕ → ℕ → ProofData → ℕ → Event
  finalized : ℕ → Event
  proofs_reaped : ℕ → ℕ → Event
  rolled_back : Event

module _ (ext : External) where
  -- A request that spans too few chains does not reach the lock.
  unfoldable pub request : CoordinatorState → XtRequest → ℕ → CoordinatorState
  unfolding submit extract_chains
  request s req now =
      let chains = extract_chains req in
      if ltb (length chains) 2 then s else (submit ext s now req chains).0

  unfoldable pub step : CoordinatorState → Event → CoordinatorState
  unfolding register_chain init_superblock begin_period request record_vote start_next
      reap_timed_out collect_proof finalize reap_expired_proofs begin_rollback
  step s (registered client_id chain_id) = register_chain s client_id chain_id
  step s (initialized latest) = init_superblock s latest
  step s period_began = (begin_period s).0
  step s (requested req now) = request s req now
  step s (voted bytes c b now) = (record_vote ext s (ext.hex_encode bytes) bytes c b now).0
  step s (drained now) = (start_next ext s now).0
  step s (reaped now timeout) = (reap_timed_out ext s now timeout).0
  step s (proof_received number chain proof now) = (collect_proof s number chain proof now).0
  step s (finalized number) = finalize s number
  step s (proofs_reaped now window) = (reap_expired_proofs s now window).0
  step s rolled_back = (begin_rollback s).0

  unfoldable pub run : CoordinatorState → List Event → CoordinatorState
  unfolding step
  run s [] = s
  run s (e ∷ es) = run (step s e) es

  -- The id that the request would get is not the id of an active transaction.
  abbrev pub IsFresh : CoordinatorState → XtRequest → Type 0
  IsFresh s req = get text_discrete (to_string (next_instance_id ext s req)) s.active_xts ≡ none

  abbrev pub IsFreshEntry : CoordinatorState → Option PendingEntry → Type 0
  IsFreshEntry s none = Unit
  IsFreshEntry s (some e) = IsFresh s e.xt_request

  -- The event makes no id that is in use: SHA-256 does not collide on what is active.
  abbrev pub NoCollision : CoordinatorState → Event → Type 0
  NoCollision s (requested req now) = IsFresh s req
  NoCollision s (drained now) = IsFreshEntry s (take_next_ready s).1
  NoCollision s e = Unit

  abbrev pub NoCollisions : CoordinatorState → List Event → Type 0
  NoCollisions s [] = Unit
  NoCollisions s (e ∷ es) = NoCollision s e × NoCollisions (step s e) es
