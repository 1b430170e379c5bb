-- ===== src/Program/Tasks/Configured.antt =====
-- The settings of the coordinator, from the configuration on and whatever runs.
use publisher.Base.{
  ℕ, ◌≡◌, refl, ap, ◌∙◌, Bool, true, false, not, ◌&&◌, arith, Option, none, some, List, [], ◌∷◌,
}
use publisher.Base.Tests.{if◌then◌else◌}
use publisher.Base.Lists.{is_empty}
use publisher.Base.Results.{Result}
use publisher.Spec.Primitives.{Text}
use publisher.Config.{Config, SettlementConfig}
use publisher.Coordinator.ProofTypes.{B256}
use publisher.Coordinator.State.{External}
use publisher.Coordinator.Service.{new, with_l1_submitter, init_from_l1}
use publisher.Transport.Session.{Action, inserted, on_connect, on_message, removed, on_disconnect}
use publisher.Program.Startup.{Node, start, l1_submitter_of, is_settlement_configured, metrics_of}
use publisher.Program.Node.{act}
use publisher.Program.Tasks.{Stage}
use publisher.Program.Tasks.Pool.{
  Pool, Move, accepted, called, acted, turned, pick, act_next, turn_next, go, go_all,
}
use publisher.Program.Tasks.Steady.{settings, turn-settings}

-- What the configuration asks for: its two times, and a submitter if all of its settings are given
-- and one can be created.
abbrev pub configured : (SettlementConfig → Bool) → Config → ℕ × ℕ × Bool
configured created cfg = (
  cfg.consensus.timeout,
  cfg.consensus.proof_window,
  not (is_empty cfg.settlement.l1_rpc_url)
      && (not (is_empty cfg.settlement.l2oo_address)
          && (not (is_empty cfg.settlement.proposer_key) && created cfg.settlement)),
)

act-settings : (n : Node) (a : Action) → settings (act n a).coordinator ≡ settings n.coordinator
unfolding act
act-settings n (inserted client_id conn) = refl
act-settings n (on_connect client_id) = refl
act-settings n (on_message client_id payload) = refl
act-settings n (removed client_id conn) = refl
act-settings n (on_disconnect client_id) = refl

module _ (ext : External) where
  act_next-settings :
      (p : Pool) (i : ℕ) (o : Option (Action × List Action))
      → settings (act_next p i o).0.node.coordinator ≡ settings p.node.coordinator
  unfolding act_next
  act_next-settings p i none = refl
  act_next-settings p i (some (a, rest)) = act-settings p.node a

  turn_next-settings :
      (p : Pool) (i now : ℕ) (o : Option (Stage × List Stage))
      → settings (turn_next ext p i now o).0.node.coordinator ≡ settings p.node.coordinator
  unfolding turn_next
  turn_next-settings p i now none = refl
  turn_next-settings p i now (some (s, rest)) = turn-settings ext p.node.coordinator now s

  go-settings :
      (p : Pool) (m : Move) → settings (go ext p m).0.node.coordinator ≡ settings p.node.coordinator
  unfolding go
  go-settings p (accepted conn incoming) = refl
  go-settings p (called call) = refl
  go-settings p (acted i) = act_next-settings p i (pick p.sessions i)
  go-settings p (turned i now) = turn_next-settings p i now (pick p.tasks i)

  pub go_all-settings :
      (p : Pool) (ms : List Move)
      → settings (go_all ext p ms).0.node.coordinator ≡ settings p.node.coordinator
  unfolding go_all
  go_all-settings p [] = refl
  go_all-settings p (m ∷ ms) = go_all-settings (go ext p m).0 ms ∙ go-settings p m

l1_submitter_of_lem :
    (created : SettlementConfig → Bool) (cfg : Config)
    → l1_submitter_of created cfg.settlement ≡ (configured created cfg).2
unfolding l1_submitter_of is_settlement_configured
l1_submitter_of_lem created cfg = ground arith

pub start-settings :
    (created : SettlementConfig → Bool) (cfg : Config) (now : ℕ)
    (latest : Result Text (Option (ℕ × B256)))
    → settings (start created cfg now latest).coordinator ≡ configured created cfg
unfolding start new with_l1_submitter init_from_l1
start-settings created cfg now latest =
    submitter_told (l1_submitter_of created cfg.settlement)
    ∙ ap (λ b. (cfg.consensus.timeout, cfg.consensus.proof_window, b))
        (l1_submitter_of_lem created cfg)
  where
    submitter_told :
        (b : Bool)
        → settings (
            init_from_l1
              (if b
                then with_l1_submitter (
                    new
                      (metrics_of cfg.metrics.enabled).1
                      cfg.consensus.timeout
                      cfg.consensus.proof_window
                      now)
                else new
                    (metrics_of cfg.metrics.enabled).1
                    cfg.consensus.timeout
                    cfg.consensus.proof_window
                    now)
              latest)
          ≡ (cfg.consensus.timeout, cfg.consensus.proof_window, b)
    submitter_told true = refl
    submitter_told false = refl
