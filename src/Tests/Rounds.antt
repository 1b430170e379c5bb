-- ===== src/Tests/Rounds.antt =====
-- Runs of crates/coordinator: rounds, queue and registry.
use publisher.Base.{◌≡◌, ◌↔◌, refl, true, false, none, some, List, [], ◌∷◌, arith, ℕ_discrete}
use publisher.Base.Lists.{all, contains}
use publisher.Base.Maps.{get}
use publisher.Spec.Primitives.{Bytes, text_discrete}
use publisher.Sbcp.Id.{generate_instance_id}
use publisher.Coordinator.State.{ActiveXt, CoordinatorState, new, register_chain}
use publisher.Coordinator.Requests.{proto_to_spec_xt}
use publisher.Coordinator.Rounds.{record_vote}
use publisher.Coordinator.Queue.{take_next_ready}
use publisher.Coordinator.Queue.First.{Taken, take_next_ready-Taken}
use publisher.Coordinator.Messaging.{drain_queue}
use publisher.Coordinator.Messaging.Drain.{IsIdle, drain_queue-IsIdle}
use publisher.Coordinator.Voting.{IsOpen}
use publisher.Coordinator.Voting.Commit.{OthersVoted, commit_iff_unanimous, record_vote_decides}
use publisher.Coordinator.Voting.Liveness.{approve, approve_commits}
use publisher.Coordinator.History.{Event, registered, requested}
use publisher.Coordinator.Registry.{register_chain_evicts_other}
use publisher.Tests.{plain, half_voted, xt_id, busy, both_chains, serving}

abbrev pub history : List Event
history = registered (10 ∷ []) 1 ∷ requested both_chains 5 ∷ []

abbrev first_bytes : Bytes
first_bytes = generate_instance_id plain.sha256 0 1 (proto_to_spec_xt both_chains)

abbrev first_xt : ActiveXt
first_xt = record {
  chains = 1 ∷ 2 ∷ [];
  votes = [];
  instance_id_bytes = first_bytes;
  start_time = 5;
}

pub half_voted-IsOpen : IsOpen half_voted
unfolding contains get all ℕ_discrete
half_voted-IsOpen = record {
  distinct = (refl, (refl, tt));
  spans = omega arith;
  voters = λ c h. cc;
  once = tt;
  unanimous = refl;
  undecided = omega arith;
}

commit_iff_unanimous_example :
    ((record_vote plain busy xt_id (7 ∷ []) 1 false 9).1 ≡ some (true, 4, []))
    ↔ ((false ≡ true) × OthersVoted half_voted 1)
unfolding get contains text_discrete
commit_iff_unanimous_example =
    commit_iff_unanimous plain busy xt_id (7 ∷ []) 1 false 9 half_voted refl refl refl
      half_voted-IsOpen

record_vote_decides_example :
    ((record_vote plain busy xt_id (7 ∷ []) 1 false 9).1 ≡ some (false, 4, []))
    × (get text_discrete xt_id (record_vote plain busy xt_id (7 ∷ []) 1 false 9).0.active_xts
        ≡ none)
unfolding get contains text_discrete
record_vote_decides_example =
    record_vote_decides plain busy xt_id (7 ∷ []) 1 false 9 half_voted refl refl refl
      half_voted-IsOpen

approve_commits_example :
    ((approve plain busy xt_id (7 ∷ []) (2 ∷ 1 ∷ []) 9).1 ≡ none ∷ some true ∷ [])
    × (get text_discrete xt_id (approve plain busy xt_id (7 ∷ []) (2 ∷ 1 ∷ []) 9).0.active_xts
        ≡ none)
unfolding get contains text_discrete
approve_commits_example =
    approve_commits plain busy xt_id (7 ∷ []) (2 ∷ 1 ∷ []) 9 half_voted refl half_voted-IsOpen
      (refl, (refl, tt)) ((refl, refl), ((refl, refl), tt)) refl

abbrev waiting : CoordinatorState
waiting = record busy {
  pending_queue =
      record { xt_request = both_chains; chains = 2 ∷ 3 ∷ [] }
      ∷ record { xt_request = both_chains; chains = 3 ∷ 4 ∷ [] }
      ∷ [];
}

take_next_ready-Taken_example : Taken waiting (take_next_ready waiting)
take_next_ready-Taken_example = take_next_ready-Taken waiting

drain_queue-IsIdle_example : IsIdle (drain_queue plain (serving waiting) 9).0.state
drain_queue-IsIdle_example = drain_queue-IsIdle plain 9 (serving waiting)

register_chain_evicts_other_example :
    let t =
      register_chain (register_chain (register_chain new (10 ∷ []) 1) (20 ∷ []) 1) (10 ∷ []) 2 in
    (get ℕ_discrete 1 t.chain_to_client ≡ none)
    × (get text_discrete (20 ∷ []) t.client_to_chain ≡ some 1)
register_chain_evicts_other_example =
    register_chain_evicts_other new (10 ∷ []) (20 ∷ []) 1 2 (λ e. cc) (λ e. omega arith)
