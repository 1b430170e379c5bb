-- ===== src/Program/Whole.antt =====
-- The whole program from its configuration on: every start and every series of happenings is a
-- history of critical sections from the empty state.
use publisher.Base.{
  ℕ, ◌≡◌, refl, sym, ap, subst, ◌∙◌, Bool, true, false, inl, inr, Option, List, [], ◌∷◌, ◌++◌,
}
use publisher.Base.Tests.{Bool-cases}
use publisher.Base.Results.{Result}
use publisher.Spec.Primitives.{Text}
use publisher.Config.{Config, SettlementConfig}
use publisher.Coordinator.ProofTypes.{B256}
use publisher.Coordinator.State
use publisher.Coordinator.State.{External}
use publisher.Coordinator.Service.{init_from_l1, new, with_l1_submitter}
use publisher.Coordinator.History.{Event, initialized, run, NoCollisions}
use publisher.Coordinator.History.Soundness.{IsSound, new-IsSound}
use publisher.Coordinator.History.Reachable.{run-IsSound}
use publisher.Transport.Session.{Action, inserted, on_connect, on_message, removed, on_disconnect}
use publisher.Program.Sections.{sections, serve-run, run-append}
use publisher.Program.Startup.{Node, start, l1_submitter_of}
use publisher.Program.Node.{act, Happening, acted, called, happen, happen_all}

-- The critical sections of the start, and of what happens to a node.
abbrev pub start_sections : Bool → Result Text (Option (ℕ × B256)) → List Event
start_sections true latest = initialized latest ∷ []
start_sections false latest = []

module _ (ext : External) where
  abbrev happening_sections : Node → Happening → List Event
  happening_sections n (acted a) = []
  happening_sections n (called call) = sections ext n.coordinator call

  abbrev node_sections : Node → List Happening → List Event
  node_sections n [] = []
  node_sections n (h ∷ hs) = happening_sections n h ++ node_sections (happen ext n h).0 hs

  -- No action of the server touches the coordinator's state.
  pub act-state : (n : Node) (a : Action) → (act n a).coordinator.state ≡ n.coordinator.state
  unfolding act
  act-state n (inserted client_id conn) = refl
  act-state n (on_connect client_id) = refl
  act-state n (on_message client_id payload) = refl
  act-state n (removed client_id conn) = refl
  act-state n (on_disconnect client_id) = refl

  happen-run :
      (n : Node) (h : Happening)
      → (happen ext n h).0.coordinator.state ≡ run ext n.coordinator.state (happening_sections n h)
  unfolding happen run
  happen-run n (acted a) = act-state n a
  happen-run n (called call) = serve-run ext n.coordinator call

  happen_all-run :
      (n : Node) (hs : List Happening)
      → (happen_all ext n hs).coordinator.state ≡ run ext n.coordinator.state (node_sections n hs)
  unfolding happen_all run
  happen_all-run n [] = refl
  happen_all-run n (h ∷ hs) =
      happen_all-run (happen ext n h).0 hs
      ∙ ap (λ t. run ext t (node_sections (happen ext n h).0 hs)) (happen-run n h)
      ∙ sym (
          run-append ext n.coordinator.state (happening_sections n h)
            (node_sections (happen ext n h).0 hs))

  module _ (created : SettlementConfig → Bool) (cfg : Config) (now : ℕ)
      (latest : Result Text (Option (ℕ × B256))) where
    pub start-run :
        (start created cfg now latest).coordinator.state
        ≡ run ext State.new (start_sections (l1_submitter_of created cfg.settlement) latest)
    unfolding start run init_from_l1 new with_l1_submitter
    start-run = elim (Bool-cases (l1_submitter_of created cfg.settlement)) [
      | inl configured ↦ rw configured refl
      | inr absent ↦ rw absent refl
    ]

    -- What the program has gone through.
    abbrev whole_history : List Happening → List Event
    whole_history hs =
        start_sections (l1_submitter_of created cfg.settlement) latest
        ++ node_sections (start created cfg now latest) hs

    whole-run :
        (hs : List Happening)
        → (happen_all ext (start created cfg now latest) hs).coordinator.state
          ≡ run ext State.new (whole_history hs)
    whole-run hs =
        happen_all-run (start created cfg now latest) hs
        ∙ ap (λ t. run ext t (node_sections (start created cfg now latest) hs)) start-run
        ∙ sym (
            run-append ext State.new
              (start_sections (l1_submitter_of created cfg.settlement) latest)
              (node_sections (start created cfg now latest) hs))

-- Whatever the configuration and L1 say at the start, whatever connections do and whatever is
-- served after it, if no new instance id collides with an active one: every active transaction
-- holds exactly its chains and is undecided, with distinct chains, at least two, and votes of
-- participants only, and the queue holds at most a hundred requests.
whole-IsSound :
    (ext : External) (created : SettlementConfig → Bool) (cfg : Config) (now : ℕ)
    (latest : Result Text (Option (ℕ × B256))) (hs : List Happening)
    → NoCollisions ext State.new (whole_history ext created cfg now latest hs)
    → IsSound (happen_all ext (start created cfg now latest) hs).coordinator.state
whole-IsSound ext created cfg now latest hs n =
    subst IsSound (sym (whole-run ext created cfg now latest hs))
      (run-IsSound ext State.new (whole_history ext created cfg now latest hs) n new-IsSound)
