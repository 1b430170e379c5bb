-- ===== src/Program/Tasks/Histories.antt =====
-- What the tasks make of the coordinator's state: whatever the scheduler chooses, a history of critical
-- sections.
use publisher.Base.{
  ℕ, ◌≡◌, refl, sym, ap, subst, ◌∙◌, Bool, Option, none, some, List, [], ◌∷◌, ◌++◌,
}
use publisher.Base.Results.{Result}
use publisher.Spec.Primitives.{Text}
use publisher.Config.{Config, SettlementConfig}
use publisher.Coordinator.ProofTypes.{B256}
use publisher.Coordinator.State
use publisher.Coordinator.State.{External}
use publisher.Coordinator.Service.{Coordinator}
use publisher.Coordinator.History.{Event, run, NoCollisions}
use publisher.Coordinator.History.Soundness.{IsSound, new-IsSound}
use publisher.Coordinator.History.Reachable.{run-IsSound}
use publisher.Transport.Session.{Action}
use publisher.Program.Sections.{run-append}
use publisher.Program.Startup.{Node, start, l1_submitter_of}
use publisher.Program.Whole.{start_sections, act-state, start-run}
use publisher.Program.Tasks.{Stage}
use publisher.Program.Tasks.Pool.{
  Pool, Move, accepted, called, acted, turned, pick, act_next, turn_next, go, go_all,
}
use publisher.Program.Tasks.Written.{turn_section, turn-run}

module _ (ext : External) where
  -- The critical sections of a move, and of a series of moves.
  abbrev picked_sections : Coordinator → ℕ → Option (Stage × List Stage) → List Event
  picked_sections c now none = []
  picked_sections c now (some (s, rest)) = turn_section ext c now s

  abbrev pub move_sections : Pool → Move → List Event
  move_sections p (turned i now) = picked_sections p.node.coordinator now (pick p.tasks i)
  move_sections p other = []

  abbrev pub pool_sections : Pool → List Move → List Event
  pool_sections p [] = []
  pool_sections p (m ∷ ms) = move_sections p m ++ pool_sections (go ext p m).0 ms

  act_next-state :
      (p : Pool) (i : ℕ) (o : Option (Action × List Action))
      → (act_next p i o).0.node.coordinator.state ≡ p.node.coordinator.state
  unfolding act_next
  act_next-state p i none = refl
  act_next-state p i (some (a, rest)) = act-state ext p.node a

  turn_next-run :
      (p : Pool) (i now : ℕ) (o : Option (Stage × List Stage))
      → (turn_next ext p i now o).0.node.coordinator.state
        ≡ run ext p.node.coordinator.state (picked_sections p.node.coordinator now o)
  unfolding turn_next run
  turn_next-run p i now none = refl
  turn_next-run p i now (some (s, rest)) = turn-run ext p.node.coordinator now s

  go-run :
      (p : Pool) (m : Move)
      → (go ext p m).0.node.coordinator.state ≡ run ext p.node.coordinator.state (move_sections p m)
  unfolding go run
  go-run p (accepted conn incoming) = refl
  go-run p (called call) = refl
  go-run p (acted i) = act_next-state p i (pick p.sessions i)
  go-run p (turned i now) = turn_next-run p i now (pick p.tasks i)

  go_all-run :
      (p : Pool) (ms : List Move)
      → (go_all ext p ms).0.node.coordinator.state
        ≡ run ext p.node.coordinator.state (pool_sections p ms)
  unfolding go_all run
  go_all-run p [] = refl
  go_all-run p (m ∷ ms) =
      go_all-run (go ext p m).0 ms
      ∙ ap (λ t. run ext t (pool_sections (go ext p m).0 ms)) (go-run p m)
      ∙ sym (
          run-append ext p.node.coordinator.state (move_sections p m)
            (pool_sections (go ext p m).0 ms))

-- The pool at the end of `main`'s start, before anything is accepted.
abbrev pub opened : Node → Pool
opened n = record { node = n; sessions = []; tasks = [] }

module _ (ext : External) (created : SettlementConfig → Bool) (cfg : Config) (now : ℕ)
    (latest : Result Text (Option (ℕ × B256))) where
  -- What the program has gone through.
  abbrev pub pool_history : List Move → List Event
  pool_history ms =
      start_sections (l1_submitter_of created cfg.settlement) latest
      ++ pool_sections ext (opened (start created cfg now latest)) ms

  pool-run :
      (ms : List Move)
      → (go_all ext (opened (start created cfg now latest)) ms).0.node.coordinator.state
        ≡ run ext State.new (pool_history ms)
  pool-run ms =
      let p = opened (start created cfg now latest) in
      go_all-run ext p ms
      ∙ ap (λ t. run ext t (pool_sections ext p ms)) (start-run ext created cfg now latest)
      ∙ sym (
          run-append ext State.new (start_sections (l1_submitter_of created cfg.settlement) latest)
            (pool_sections ext p ms))

-- Whatever the configuration and L1 say at the start, whatever connects and is called after it, and
-- however the tasks take turns at the critical sections, if no new instance id collides with an
-- active one: every active transaction holds exactly its chains and is undecided, with distinct
-- chains, at least two, and votes of participants only, and the queue holds at most a hundred
-- requests.
pub go_all-IsSound :
    (ext : External) (created : SettlementConfig → Bool) (cfg : Config) (now : ℕ)
    (latest : Result Text (Option (ℕ × B256))) (ms : List Move)
    → NoCollisions ext State.new (pool_history ext created cfg now latest ms)
    → let s = (go_all ext (opened (start created cfg now latest)) ms).0.node.coordinator.state in
      IsSound s
go_all-IsSound ext created cfg now latest ms n =
    subst IsSound (sym (pool-run ext created cfg now latest ms))
      (run-IsSound ext State.new (pool_history ext created cfg now latest ms) n new-IsSound)
