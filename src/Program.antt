-- ===== src/Program.antt =====
-- bin/publisher/src/main.rs: what drives the coordinator. Each call is one run of a callback, of
-- a round of a timer loop, of an HTTP handler, or of a task that ends.
pub mod Draining
pub mod Inbound
pub mod Sections
pub mod Decisions
pub mod Startup
pub mod Node
pub mod Routing
pub mod Relay
pub mod Whole
pub mod Tasks
pub mod Main
use publisher.Base.{ℕ, Bool, Option, List, [], ◌∷◌, ◌++◌}
use publisher.Base.Results.{Result}
use publisher.Spec.Primitives.{Bytes, Text}
use publisher.Coordinator.ProofTypes.{B256}
use publisher.Coordinator.State.{External}
use publisher.Coordinator.Service.{Coordinator, Effect, init_from_l1, on_submitted}
use publisher.Coordinator.Messaging.{advance_period, reap_timed_out_xts, reap_expired_proofs}
use publisher.Coordinator.ChainIds.{parse_chain_id}
use publisher.Coordinator.Dispatch.{register_parsed, dispatch}
use publisher.Server.{ProofSubmission, handle_submit_proof}

pub data Call : Type 0 where
  fetched : Result Text (Option (ℕ × B256)) → Call
  received : Text → Bytes → ℕ → Call
  connected : Text → Call
  period_ticked : Call
  reaper_ticked : ℕ → ℕ → Call
  submitted : ProofSubmission → ℕ → Call
  submission_ended : ℕ → Bool → Call

-- The body of `on_connect`, but for its gauge.
unfoldable pub on_connect : Coordinator → Text → Coordinator
unfolding register_parsed parse_chain_id
on_connect c client_id = register_parsed c client_id (parse_chain_id client_id)

module _ (ext : External) where
  -- A round of `reaper_loop`, which reads the clock twice.
  unfoldable pub reaper_round : Coordinator → ℕ → ℕ → Coordinator × List Effect
  unfolding reap_timed_out_xts reap_expired_proofs
  reaper_round c now later =
      let (c', aborts) = reap_timed_out_xts ext c now in
      let (c'', rollback) = reap_expired_proofs ext c' later in (c'', aborts ++ rollback)

  unfoldable pub serve : Coordinator → Call → Coordinator × List Effect
  unfolding init_from_l1 dispatch on_connect advance_period reaper_round handle_submit_proof
      on_submitted
  serve c (fetched latest) = (init_from_l1 c latest, [])
  serve c (received client_id frame now) = dispatch ext c client_id frame now
  serve c (connected client_id) = (on_connect c client_id, [])
  serve c period_ticked = advance_period ext c
  serve c (reaper_ticked now later) = reaper_round c now later
  serve c (submitted body now) =
      let (c', effects, status) = handle_submit_proof c body now in (c', effects)
  serve c (submission_ended superblock_number success) =
      (on_submitted c superblock_number success, [])

  unfoldable pub serve_all : Coordinator → List Call → Coordinator
  unfolding serve
  serve_all c [] = c
  serve_all c (call ∷ calls) = serve_all (serve c call).0 calls
