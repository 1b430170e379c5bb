-- ===== src/Program/Main.antt =====
-- bin/publisher/src/main.rs: `main` as a whole, from the settings to the shutdown. What is outside
-- the program answers each step.
use publisher.Base.{ℕ, ◌≡◌, ◌<◌, refl, ◌∙◌, Bool, true, false, Option, List, [], ◌∷◌}
use publisher.Base.Results.{Result, ok, err}
use publisher.Spec.Primitives.{Text}
use publisher.Config.{Config, SettlementConfig, Outside, LoadError, load}
use publisher.Config.Loading.{load-IsValid}
use publisher.Coordinator.ProofTypes.{B256}
use publisher.Coordinator.State
use publisher.Coordinator.State.{External}
use publisher.Transport.Framing.{TransportError}
use publisher.Transport.Starting
use publisher.Transport.Starting.{Platform, Closing, open_endpoint, set_endpoint, closing, close}
use publisher.Program.Startup
use publisher.Program.Node.{Sent}
use publisher.Program.Tasks.Pool.{Pool, Move, go_all}
use publisher.Program.Tasks.Histories.{opened, pool_history, go_all-IsSound}
use publisher.Program.Tasks.Steady.{settings}
use publisher.Program.Tasks.Configured.{configured, go_all-settings, start-settings}
use publisher.Coordinator.History.{NoCollisions}
use publisher.Coordinator.History.Soundness.{IsSound}

pub data MainError : Type 0 where
  not_installed : MainError
  not_loaded : LoadError → MainError
  not_started : TransportError → MainError
  not_bound : Text → MainError
  not_served : Text → MainError

-- What installs the crypto provider, the settings with the file that they are in, whether
-- `L1Submitter::new` succeeds, the time of the start, what L1 has, what binding the listener gives,
-- and how serving HTTP ends.
pub record Surroundings : Type 0 where
  pub install_default : Bool
  pub out : Outside
  pub file : Option (Result Text Text)
  pub created : SettlementConfig → Bool
  pub now : ℕ
  pub latest : Result Text (Option (ℕ × B256))
  pub bind : Text → Result Text (Unit {0})
  pub served : Result Text (Unit {0})

-- `?` on a result.
infixl 5 ◌>>=◌
abbrev ◌>>=◌ {ℓ κ} :
    {A : Type ℓ} {B : Type κ} → Result MainError A → (A → Result MainError B) → Result MainError B
ok a >>= f = f a
err e >>= f = err e

abbrev from {ℓ κ} : {E : Type ℓ} {A : Type κ} → (E → MainError) → Result E A → Result MainError A
from g (ok a) = ok a
from g (err e) = err (g e)

abbrev installed : Bool → Result MainError (Unit {0})
installed true = ok tt
installed false = err not_installed

abbrev started {ℓ κ} :
    {S : Type ℓ} {E : Type κ} → S × Result TransportError E → Result TransportError S
started (s, ok e) = ok s
started (s, err e) = err e

module _ {Tls Quic SocketAddr Socket Endpoint : Type 0} (ext : External)
    (p : Platform Tls Quic SocketAddr Socket Endpoint) (w : Surroundings) (ms : List Move) where
  -- The tasks go through the moves until serving HTTP ends.
  unfoldable pub main : Result MainError (Pool × Sent × List (Closing Endpoint))
  unfolding load Starting.start Startup.start go_all close
  main = do
    crypto ← installed w.install_default
    cfg ← from not_loaded (load w.out w.file)
    server ← from not_started (
        started
          (Starting.start p (Starting.new cfg.server.listen_addr cfg.server.max_message_size)))
    listener ← from not_bound (w.bind cfg.api.listen_addr)
    ended ← from not_served w.served
    let (pool, sent) = go_all ext (opened (Startup.start w.created cfg w.now w.latest)) ms
    ok (pool, sent, close server)

  -- Where the crypto provider is installed, the configuration is loaded, an endpoint can be opened
  -- at its address for sidecars, the listener can be bound at its address for HTTP, serving ends
  -- without an error, and no new instance id collides with an active one, `main` ends without an
  -- error; whatever the tasks have done, in any order, the state of the coordinator then is sound,
  -- its timeout and its proof window are those of the configuration, these and the period are
  -- positive, it has a submitter exactly if all three settings of the settlement are given and one
  -- can be created, and the endpoint is closed.
  pub main_runs :
      (cfg : Config) (e : Endpoint)
      → w.install_default ≡ true
      → load w.out w.file ≡ ok cfg
      → open_endpoint p cfg.server.listen_addr ≡ ok e
      → w.bind cfg.api.listen_addr ≡ ok tt
      → w.served ≡ ok tt
      → NoCollisions ext State.new (pool_history ext w.created cfg w.now w.latest ms)
      → (r : Pool × Sent × List (Closing Endpoint)) × ((main ≡ ok r)
          × (IsSound r.0.node.coordinator.state)
          × (settings r.0.node.coordinator ≡ configured w.created cfg)
          × (0 < cfg.consensus.timeout)
          × (0 < cfg.consensus.period_duration)
          × (0 < cfg.consensus.proof_window)
          × (r.2 ≡ closing e ∷ []))
  unfolding main Starting.start set_endpoint Starting.set_once close
  main_runs cfg e i l o b s n =
      let p0 = opened (Startup.start w.created cfg w.now w.latest) in
      let valid = load-IsValid w.out w.file cfg l in
      (
        ((go_all ext p0 ms).0, (go_all ext p0 ms).1, closing e ∷ []),
        (
          rw i (rw l (rw o (rw b (rw s refl)))),
          go_all-IsSound ext w.created cfg w.now w.latest ms n,
          go_all-settings ext p0 ms ∙ start-settings w.created cfg w.now w.latest,
          valid.timeout_positive,
          valid.period_positive,
          valid.window_positive,
          refl,
        ),
      )
