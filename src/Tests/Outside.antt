-- ===== src/Tests/Outside.antt =====
-- Settings, hosts and a contract that refuse some of what they are asked.
use publisher.Base.{ℕ, zero, suc, ◌<◌, ◌≡◌, refl, ◌⊎◌, Bool, true, false, none, List, [], ◌∷◌}
use publisher.Base.Results.{Result, ok, err}
use publisher.Spec.Primitives.{Text, codes}
use publisher.Transport.Starting
use publisher.Transport.Starting.{
  Platform, open_endpoint, Closing, closing, first_opened, looping, closings, close, start_all,
  start_all-close,
}
use publisher.Config.{load}
use publisher.Coordinator.History.Soundness.{IsSound}
use publisher.Program.{connected}
use publisher.Program.Startup.{start}
use publisher.Program.Node.{Sent}
use publisher.Program.Tasks.{turn}
use publisher.Program.Tasks.Pool.{Pool, Move, called, turned, go, go_all}
use publisher.Program.Tasks.Steady.{settings}
use publisher.Program.Tasks.Configured.{configured}
use publisher.Program.Main.{Surroundings, main, main_runs}
use publisher.Coordinator.Submission.{Proposal, Attempt, receipt, failed}
use publisher.Coordinator.Submission.Provider.{Alloy, L1Submitter, submit}
use publisher.Coordinator.Submission.Outcome.{IsSent, IsUnsent, submit_lem}
use publisher.Tests.{plain, bare_proof}
use publisher.Tests.Network.{bare, loaded_default}
use publisher.Tests.Proofs.{flat}

-- A host that lets a socket be bound or does not; its endpoints are numbers.
abbrev bound_if : Bool → Result Text ℕ
bound_if true = ok 5
bound_if false = err (codes "address in use")

abbrev host : Bool → ℕ → Platform ℕ ℕ ℕ ℕ ℕ
host is_free endpoint = record {
  generate_simple_self_signed = λ names. ok (1 ∷ [], 2 ∷ []);
  with_single_cert = λ certs key. ok 3;
  with_alpn_protocols = λ protocols config. config;
  quic_config = λ config. ok config;
  parse = λ text. ok 4;
  is_ipv6 = λ addr. false;
  new_socket = λ domain. ok 5;
  set_recv_buffer_size = λ size socket. err [];
  set_send_buffer_size = λ size socket. ok socket;
  bind = λ addr socket. bound_if is_free;
  has_runtime = true;
  new_endpoint = λ config socket. ok endpoint;
}

-- The second attempt succeeds; the third is too late.
abbrev hosts : List (Platform ℕ ℕ ℕ ℕ ℕ)
hosts = host false 7 ∷ host true 8 ∷ host true 9 ∷ []

start_all-close_example :
    let (s, loops) = start_all (Starting.new (codes "0.0.0.0:8080") 100) hosts in
    let first = first_opened (codes "0.0.0.0:8080") hosts in
    (loops ≡ looping first) × (close s ≡ closings first)
start_all-close_example = start_all-close (codes "0.0.0.0:8080") 100 hosts

abbrev node : Alloy ℕ ℕ ℕ ℕ
node = record {
  parse_address = λ text. ok 1;
  parse_signer = λ text. ok 2;
  parse_url = λ text. ok 3;
  connect_http = λ signer url. signer;
}

abbrev proposer : L1Submitter ℕ
proposer = record { l2oo_address = 1; rpc_url = []; private_key = []; parent_hash = 9 }

-- A contract that takes the second attempt.
abbrev second_time : ℕ → ℕ → Proposal → ℕ → Attempt
second_time provider address p zero = failed []
second_time provider address p (suc j) = receipt

submit_lem_example :
    let r = submit node flat second_time proposer 8 ((1, bare_proof) ∷ []) in
    IsSent node flat second_time proposer 8 ((1, bare_proof) ∷ []) r
    ⊎ IsUnsent node flat second_time proposer 8 ((1, bare_proof) ∷ []) r
submit_lem_example = submit_lem node flat second_time proposer 8 ((1, bare_proof) ∷ [])

abbrev surroundings : Surroundings
surroundings = record {
  install_default = true;
  out = bare;
  file = none;
  created = λ s. false;
  now = 0;
  latest = ok none;
  bind = λ addr. ok tt;
  served = ok tt;
}

-- A client is registered.
abbrev moves : List Move
moves = called (connected (codes "5")) ∷ turned 0 3 ∷ []

main_runs_example :
    (r : Pool × Sent × List (Closing ℕ)) × ((main plain (host true 8) surroundings moves ≡ ok r)
      × (IsSound r.0.node.coordinator.state)
      × (settings r.0.node.coordinator ≡ configured surroundings.created loaded_default)
      × (0 < loaded_default.consensus.timeout)
      × (0 < loaded_default.consensus.period_duration)
      × (0 < loaded_default.consensus.proof_window)
      × (r.2 ≡ closing 8 ∷ []))
unfolding load start go_all go turn open_endpoint
main_runs_example =
    main_runs plain (host true 8) surroundings moves loaded_default 8 refl refl refl refl refl
      (tt, tt)
