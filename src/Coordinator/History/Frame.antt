-- ===== src/Coordinator/History/Frame.antt =====
-- What votes, timeouts and the queue leave alone: the registration of chains and the settlement.
use publisher.Base.{ℕ, ◌≡◌, refl, ◌∙◌, Option, none, some, List, [], ◌∷◌, arith}
use publisher.Spec.Primitives.{Text}
use publisher.Coordinator.State.{External, CoordinatorState, PendingEntry}
use publisher.Coordinator.Rounds.{close_xt, reap_each, prepare_xt}
use publisher.Coordinator.Queue.{start_taken, start_next, take_next_ready, take_at}

pub record Framed (s t : CoordinatorState) : Type 0 where
  pub clients : t.chain_to_client ≡ s.chain_to_client
  pub number : t.next_superblock_number ≡ s.next_superblock_number

unchanged : (s : CoordinatorState) → Framed s s
unchanged s = record { clients = refl; number = refl }

both : (s t u : CoordinatorState) → Framed s t → Framed t u → Framed s u
both s t u v w = record { clients = w.clients ∙ v.clients; number = w.number ∙ v.number }

start_taken-Framed :
    (ext : External) (now : ℕ) (r : CoordinatorState × Option PendingEntry)
    → Framed r.0 (start_taken ext now r).0
unfolding start_taken prepare_xt
start_taken-Framed ext now (s, none) = unchanged s
start_taken-Framed ext now (s, some e) = record { clients = refl; number = refl }

take_next_ready-Framed : (s : CoordinatorState) → Framed s (take_next_ready s).0
unfolding take_next_ready take_at
take_next_ready-Framed s = record { clients = ground arith; number = ground arith }

pub start_next-Framed :
    (ext : External) (s : CoordinatorState) (now : ℕ) → Framed s (start_next ext s now).0
unfolding start_next
start_next-Framed ext s now =
    both s (take_next_ready s).0 (start_taken ext now (take_next_ready s)).0
      (take_next_ready-Framed s) (start_taken-Framed ext now (take_next_ready s))

pub reap_each-Framed :
    (ext : External) (s : CoordinatorState) (ids : List Text) → Framed s (reap_each ext s ids).0
unfolding reap_each close_xt
reap_each-Framed ext s [] = unchanged s
reap_each-Framed ext s (id ∷ ids) =
    let rest = reap_each-Framed ext (close_xt s id) ids in
    record { clients = rest.clients; number = rest.number }
