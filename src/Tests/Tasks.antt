-- ===== src/Tests/Tasks.antt =====
-- Tasks that take turns.
use publisher.Base.{◌≡◌, refl, false, none, some, Option, List, [], ◌∷◌, ◌++◌, ℕ_discrete}
use publisher.Base.Maps.{get, insert, remove}
use publisher.Base.Lists.{any, contains}
use publisher.Base.Results.{ok}
use publisher.Spec.Primitives.{Bytes, text_discrete, codes}
use publisher.Proto.Messages.{Message, Vote}
use publisher.Config.{default_config}
use publisher.Coordinator.State
use publisher.Coordinator.State.{External, CoordinatorState, has_overlap}
use publisher.Coordinator.Rounds.{next_instance_id, prepare_xt, record_vote}
use publisher.Coordinator.Requests.{extract_chains}
use publisher.Coordinator.Service.{broadcast_raw}
use publisher.Coordinator.History.{run}
use publisher.Coordinator.History.Soundness.{IsSound}
use publisher.Coordinator.Messaging.Drain.{IsIdle}
use publisher.Program.{received, reaper_ticked}
use publisher.Program.Startup.{Node, start}
use publisher.Program.Node.{act, called, send_all}
use publisher.Program.Tasks
use publisher.Program.Tasks.{turn}
use publisher.Program.Tasks.Pool.{
  Move, accepted, called, acted, turned, session_of, pick, turn_next, go, go_all,
}
use publisher.Program.Tasks.Histories.{opened, go_all-IsSound}
use publisher.Program.Tasks.Woken.{drains}
use publisher.Program.Tasks.Waking.{go_all-IsIdle}
use publisher.Program.Tasks.Overtaking.{start_overtakes}
use publisher.Program.Tasks.Steady.{gauge}
use publisher.Program.Tasks.Counted.{sessions_over}
use publisher.Tests.{both_chains, serving, busy}
use publisher.Tests.Program.{knows, no_vote, request_message, fresh}
use publisher.Tests.Network.{session}

-- A sidecar connects; its only message is taken up by a task, which takes two turns.
abbrev arrival : List Move
arrival =
    accepted 3 (ok session)
    ∷ acted 0
    ∷ acted 0
    ∷ acted 0
    ∷ turned 0 4
    ∷ turned 1 5
    ∷ turned 0 6
    ∷ []

go_all-IsSound_example :
    let s = (go_all (knows request_message) (opened fresh) arrival).0.node.coordinator.state in
    IsSound s
unfolding run next_instance_id State.new get text_discrete contains start go_all go session_of turn
    act any
go_all-IsSound_example =
    go_all-IsSound (knows request_message) (λ s. false) default_config 0 (ok none) arrival
      (refl, (tt, tt))

-- The request below is held by the transaction that the vote is on.
abbrev two_frames : Bytes → Option Message
two_frames [] = some request_message
two_frames (b ∷ bs) = some no_vote

abbrev either : External
either = record {
  sha256 = λ b. b;
  encode_to_vec = λ m. 9 ∷ [];
  decode = two_frames;
  hex_encode = λ b. b;
}

abbrev busy_node : Node
busy_node = record fresh { coordinator = serving busy }

abbrev refused_vote : Vote
refused_vote = record { instance_id = 7 ∷ []; chain_id = 1; vote = false }

abbrev released : CoordinatorState
released = (record_vote either busy (7 ∷ []) (7 ∷ []) 1 false 9).0

start_overtakes_example :
    ((turn either (serving busy) 9 (Tasks.serving (received (codes "5") [] 0))).2 ≡ [])
    × ((go_all either
          (record {
            node = busy_node;
            sessions = [];
            tasks =
                (Tasks.serving (received (codes "1") (1 ∷ []) 0) ∷ [])
                ∷ (Tasks.serving (received (codes "5") [] 0) ∷ [])
                ∷ [];
          })
          (turned 0 9 ∷ turned 1 9 ∷ turned 1 9 ∷ turned 0 9 ∷ [])).1
        ≡ send_all busy_node.codec busy_node.registry
            (broadcast_raw (9 ∷ []) ∷ broadcast_raw (9 ∷ []) ∷ []))
unfolding record_vote has_overlap extract_chains get text_discrete insert any remove prepare_xt
start_overtakes_example =
    start_overtakes either busy_node [] (codes "1") (codes "5") (1 ∷ []) [] 9 9 4 no_vote
      request_message refused_vote both_chains released false (9 ∷ []) refl refl refl refl refl refl
      refl refl

abbrev timeouts : List Move
timeouts =
    called (reaper_ticked 100 100) ∷ turned 0 100 ∷ turned 0 101 ∷ turned 0 102 ∷ turned 0 103 ∷ []

go_all-IsIdle_example : IsIdle (go_all either (opened busy_node) timeouts).0.node.coordinator.state
unfolding go_all go turn drains any pick turn_next
go_all-IsIdle_example = go_all-IsIdle either (opened busy_node) timeouts tt refl

-- The connection that arrives ends.
abbrev visit : List Move
visit = arrival ++ acted 0 ∷ acted 0 ∷ []

sessions_over_example :
    ((go_all (knows request_message) (opened fresh) visit).0.node.registry ≡ [])
    × (gauge (go_all (knows request_message) (opened fresh) visit).0.node.coordinator ≡ some 0)
unfolding start go_all go session_of any get ℕ_discrete
sessions_over_example =
    sessions_over (knows request_message) (opened fresh) visit refl refl refl (refl, tt)
