-- ===== src/Sbcp/Publisher.antt =====
-- crates/spec-sbcp/src/publisher.rs. A method returns the state, its calls of the messenger and of
-- L1 in order, and its result. The prover is a parameter; it is asked between two locks.
use publisher.Base.{ℕ, Bool, true, false, none, some, List, [], ◌∷◌, ℕ_discrete}
use publisher.Base.Tests.{ltb, leb, ◌==◌, if◌then◌else◌}
use publisher.Base.Lists.{length, any}
use publisher.Base.Maps.{get, contains_key, insert, remove}
use publisher.Base.Words.{add64}
use publisher.Base.Results.{Result, ok, err}
use publisher.Spec.Primitives.{
  Bytes, ChainId, PeriodId, SequenceNumber, SuperblockNumber, SuperblockHash,
}
use publisher.Spec.Instance.{XtRequest, Instance, chains, chains_from_request}
use publisher.Sbcp.Id.{generate_instance_id}

pub data PublisherError : Type 0 where
  cannot_start_instance : PublisherError
  cannot_start_period : ℕ → ℕ → PublisherError
  chain_not_active : PublisherError
  old_settled_state : PublisherError
  invalid_request : PublisherError
  invalid_initial_state : PublisherError

-- The calls of `PublisherMessenger` and of `L1Publisher`.
pub data Call : Type 0 where
  broadcast_start_period : PeriodId → SuperblockNumber → Call
  broadcast_rollback : PeriodId → SuperblockNumber → SuperblockHash → Call
  publish_proof : SuperblockNumber → Bytes → Call

pub record PublisherState : Type 0 where
  pub period_id : PeriodId
  pub target_superblock_number : SuperblockNumber
  pub last_finalized_superblock_number : SuperblockNumber
  pub last_finalized_superblock_hash : SuperblockHash
  pub proofs : List (SuperblockNumber × List (ChainId × Bytes))
  pub chain_set : List ChainId
  pub sequence_number : SequenceNumber
  pub active_chains : List (ChainId × Bool)
  pub proof_window : ℕ

abbrev pub Outcome : Type 0 → Type 0
Outcome A = PublisherState × List Call × Result PublisherError A

unfoldable pub new :
    PeriodId
    → SuperblockNumber
    → SuperblockNumber
    → SuperblockHash
    → ℕ
    → List ChainId
    → Result PublisherError PublisherState
new previous_period previous_target last_finalized last_hash proof_window chain_set =
    if ltb previous_target last_finalized
    then err invalid_initial_state
    else ok (record {
      period_id = previous_period;
      target_superblock_number = previous_target;
      last_finalized_superblock_number = last_finalized;
      last_finalized_superblock_hash = last_hash;
      proofs = [];
      chain_set = chain_set;
      sequence_number = 0;
      active_chains = [];
      proof_window = proof_window;
    })

-- The window is set, and the next superblock lies behind it.
unfoldable pub past_window : PublisherState → Bool
past_window s =
    if s.proof_window == 0
    then false
    else ltb (add64 s.last_finalized_superblock_number (add64 1 s.proof_window))
        (add64 s.target_superblock_number 1)

unfoldable pub start_period : PublisherState → Outcome (Unit {0})
start_period s =
    let next_superblock = add64 s.target_superblock_number 1 in
    let next_period = add64 s.period_id 1 in
    if past_window s
    then (
      s,
      [],
      err (
          cannot_start_period s.target_superblock_number
            (add64 s.last_finalized_superblock_number 1)),
    )
    else (
      record s {
        period_id = next_period;
        target_superblock_number = next_superblock;
        sequence_number = 0;
      },
      broadcast_start_period next_period next_superblock ∷ [],
      ok tt,
    )

-- `chains.iter().any(|c| active_chains.get(c).copied().unwrap_or(false))`.
unfoldable pub is_active : List (ChainId × Bool) → ChainId → Bool
is_active active c = elim (get ℕ_discrete c active) [ none ↦ false | some b ↦ b ]

unfoldable pub any_chain_already_active : List (ChainId × Bool) → List ChainId → Bool
unfolding is_active any
any_chain_already_active active cs = any (is_active active) cs

-- The loops of `start_instance` and `decide_instance` over the chains.
unfoldable pub activate : List ChainId → List (ChainId × Bool) → List (ChainId × Bool)
activate [] active = active
activate (c ∷ cs) active = activate cs (insert ℕ_discrete c true active)

unfoldable pub all_known : List ChainId → List (ChainId × Bool) → Bool
all_known [] active = true
all_known (c ∷ cs) active =
    let rest = all_known cs active in if contains_key ℕ_discrete c active then rest else false

unfoldable pub deactivate : List ChainId → List (ChainId × Bool) → List (ChainId × Bool)
deactivate [] active = active
deactivate (c ∷ cs) active = deactivate cs (remove ℕ_discrete c active)

unfoldable pub start_instance : (Bytes → Bytes) → PublisherState → XtRequest → Outcome Instance
unfolding any_chain_already_active activate
start_instance sha256 s request =
    let cs = chains_from_request request in
    let seq = add64 s.sequence_number 1 in
    if ltb (length request.transactions) 2
    then (s, [], err invalid_request)
    else if any_chain_already_active s.active_chains cs
    then (s, [], err cannot_start_instance)
    else (
      record s { sequence_number = seq; active_chains = activate cs s.active_chains },
      [],
      ok (record {
        id = generate_instance_id sha256 s.period_id seq request;
        period_id = s.period_id;
        sequence_number = seq;
        xt_request = request;
      }),
    )

unfoldable pub decide_instance : PublisherState → Instance → Outcome (Unit {0})
unfolding all_known deactivate
decide_instance s i =
    if all_known (chains i) s.active_chains
    then (record s { active_chains = deactivate (chains i) s.active_chains }, [], ok tt)
    else (s, [], err chain_not_active)

unfoldable pub advance_settled_state :
    PublisherState → SuperblockNumber → SuperblockHash → Outcome (Unit {0})
advance_settled_state s superblock_number superblock_hash =
    if leb superblock_number s.last_finalized_superblock_number
    then (s, [], err old_settled_state)
    else (
      record s {
        last_finalized_superblock_number = superblock_number;
        last_finalized_superblock_hash = superblock_hash;
      },
      [],
      ok tt,
    )

unfoldable pub rollback : PublisherState → PublisherState × List Call
rollback s = (
  record s {
    active_chains = [];
    sequence_number = 0;
    target_superblock_number = add64 s.last_finalized_superblock_number 1;
    proofs = [];
  },
  broadcast_rollback s.period_id s.last_finalized_superblock_number s.last_finalized_superblock_hash
      ∷ [],
)

unfoldable pub proof_timeout : PublisherState → PublisherState × List Call
unfolding rollback
proof_timeout s = rollback s
