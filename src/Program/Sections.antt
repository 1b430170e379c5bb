-- ===== src/Program/Sections.antt =====
-- What a call does to the coordinator's state, as the critical sections that it runs through.
use publisher.Base.{
  ℕ, ◌≡◌, refl, sym, ap, ◌∙◌, Bool, true, false, not, inl, inr, Option, List, [], ◌∷◌, ◌++◌,
}
use publisher.Base.Tests.{◌==◌, if◌then◌else◌, Bool-cases}
use publisher.Base.Results.{Result}
use publisher.Spec.Primitives.{Text}
use publisher.Coordinator.ProofTypes.{B256}
use publisher.Coordinator.State.{External, CoordinatorState}
use publisher.Coordinator.Settlement
use publisher.Coordinator.Service.{Coordinator, inc_messages, is_chain_registered}
use publisher.Coordinator.Messaging.{reap_timed_out_xts}
use publisher.Coordinator.ChainIds.{parse_chain_id}
use publisher.Server.{ProofSubmission, submitted_data, handle_submit_proof}
use publisher.Program.{
  Call, fetched, received, connected, period_ticked, reaper_ticked, submitted, submission_ended,
  serve, serve_all,
}
use publisher.Coordinator.History.{
  Event, initialized, period_began, proof_received, finalized, step, run,
}
use publisher.Program.Draining.{
  reaped_sections, reap_timed_out_xts-run, expired_sections, reap_expired_proofs-run,
}
use publisher.Program.Inbound.{
  registered_sections, register_parsed-run, decoded_sections, dispatch_decoded-run,
}

pub run-append :
    (ext : External) (s : CoordinatorState) (es fs : List Event)
    → run ext s (es ++ fs) ≡ run ext (run ext s es) fs
unfolding run
run-append ext s [] fs = refl
run-append ext s (e ∷ es) fs = run-append ext (step ext s e) es fs

module _ (ext : External) where
  abbrev pub fetched_sections : Bool → Result Text (Option (ℕ × B256)) → List Event
  fetched_sections configured latest = if configured then initialized latest ∷ [] else []

  abbrev submitted_sections : Coordinator → ProofSubmission → ℕ → List Event
  submitted_sections c body now =
      if body.aggregation_outputs.l1_head == 0
      then []
      else if not (is_chain_registered c body.chain_id)
      then []
      else proof_received body.superblock_number body.chain_id (submitted_data body) now ∷ []

  handle_submit_proof-run :
      (c : Coordinator) (body : ProofSubmission) (now : ℕ)
      → (handle_submit_proof c body now).0.state ≡ run ext c.state (submitted_sections c body now)
  unfolding run handle_submit_proof
  handle_submit_proof-run c body now = elim (Bool-cases (body.aggregation_outputs.l1_head == 0)) [
    | inl zero_head ↦ rw zero_head refl
    | inr head ↦ elim (Bool-cases (is_chain_registered c body.chain_id)) [
      | inl known ↦ rw head (rw known refl)
      | inr unknown ↦ rw head (rw unknown refl)
    ]
  ]

  -- The critical sections of a call.
  unfoldable pub sections : Coordinator → Call → List Event
  unfolding reaped_sections expired_sections
  sections c (fetched latest) = fetched_sections c.l1_submitter latest
  sections c (received client_id frame now) =
      decoded_sections ext (inc_messages c) client_id (ext.decode frame) now
  sections c (connected client_id) = registered_sections ext client_id (parse_chain_id client_id)
  sections c period_ticked = period_began ∷ []
  sections c (reaper_ticked now later) =
      reaped_sections ext c now ++ expired_sections ext (reap_timed_out_xts ext c now).0 later
  sections c (submitted body now) = submitted_sections c body now
  sections c (submission_ended superblock_number success) =
      if success then finalized superblock_number ∷ [] else []

  pub fetched-run :
      (c : Coordinator) (latest : Result Text (Option (ℕ × B256))) (configured : Bool)
      → (if configured
          then record c { state = Settlement.init_superblock c.state latest }
          else c).state
        ≡ run ext c.state (fetched_sections configured latest)
  unfolding run
  fetched-run c latest true = refl
  fetched-run c latest false = refl

  pub serve-run :
      (c : Coordinator) (call : Call)
      → (serve ext c call).0.state ≡ run ext c.state (sections c call)
  unfolding serve sections run
  serve-run c (fetched latest) = fetched-run c latest c.l1_submitter
  serve-run c (received client_id frame now) =
      dispatch_decoded-run ext (inc_messages c) client_id (ext.decode frame) now
  serve-run c (connected client_id) = register_parsed-run ext c client_id (parse_chain_id client_id)
  serve-run c period_ticked = refl
  serve-run c (reaper_ticked now later) =
      let c' = (reap_timed_out_xts ext c now).0 in
      reap_expired_proofs-run ext c' later
      ∙ ap (λ t. run ext t (expired_sections ext c' later)) (reap_timed_out_xts-run ext c now)
      ∙ sym (run-append ext c.state (reaped_sections ext c now) (expired_sections ext c' later))
  serve-run c (submitted body now) = handle_submit_proof-run c body now
  serve-run c (submission_ended n true) = refl
  serve-run c (submission_ended n false) = refl

  -- The critical sections of a series of calls.
  unfoldable all_sections : Coordinator → List Call → List Event
  unfolding sections
  all_sections c [] = []
  all_sections c (call ∷ calls) = sections c call ++ all_sections (serve ext c call).0 calls

  -- Whatever calls are served, the state of the coordinator is what the critical sections of the
  -- calls, one after the other, make of the state before.
  serve_all-run :
      (c : Coordinator) (calls : List Call)
      → (serve_all ext c calls).state ≡ run ext c.state (all_sections c calls)
  unfolding serve_all all_sections run
  serve_all-run c [] = refl
  serve_all-run c (call ∷ calls) =
      serve_all-run (serve ext c call).0 calls
      ∙ ap (λ t. run ext t (all_sections (serve ext c call).0 calls)) (serve-run c call)
      ∙ sym (run-append ext c.state (sections c call) (all_sections (serve ext c call).0 calls))
