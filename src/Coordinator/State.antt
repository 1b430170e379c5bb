-- ===== src/Coordinator/State.antt =====
-- crates/coordinator/src/coordinator.rs: the state that the coordinator keeps under its lock, and
-- the methods of `CoordinatorState`. The clock is read by the caller and passed in as `now`, in
-- nanoseconds; the hash function and prost's encoder come with `External`.
use publisher.Base.{ℕ, ite, Bool, true, false, Option, none, some, List, [], ◌∷◌, ℕ_discrete}
use publisher.Base.Tests.{ltb, if◌then◌else◌}
use publisher.Base.Lists.{length, any, all}
use publisher.Base.Maps.{get, contains_key, insert, remove, values}
use publisher.Spec.Primitives.{
  Bytes, Text, text_discrete, ChainId, PeriodId, SequenceNumber, SuperblockNumber, codes,
}
use publisher.Proto.Messages
use publisher.Proto.Messages.{Message, XtRequest}
use publisher.Coordinator.ProofTypes.{ProofData}

abbrev pub max_pending_queue_size : ℕ
max_pending_queue_size = 100

-- What comes from other crates: SHA-256, prost's encoder and decoder, `hex::encode`.
pub record External : Type 0 where
  pub sha256 : Bytes → Bytes
  pub encode_to_vec : Message → Bytes
  pub decode : Bytes → Option Message
  pub hex_encode : Bytes → Text

pub record ActiveXt : Type 0 where
  pub chains : List ChainId
  pub votes : List (ChainId × Bool)
  pub instance_id_bytes : Bytes
  pub start_time : ℕ

pub record PendingEntry : Type 0 where
  pub xt_request : XtRequest
  pub chains : List ChainId

-- The field `data` of the source is `proof_data`.
pub record ChainProof : Type 0 where
  pub superblock_number : ℕ
  pub proof_data : ProofData

pub record CoordinatorState : Type 0 where
  pub chain_to_client : List (ChainId × Text)
  pub client_to_chain : List (Text × ChainId)
  pub active_xts : List (Text × ActiveXt)
  pub active_chains : List (ChainId × Text)
  pub pending_queue : List PendingEntry
  pub current_period_id : PeriodId
  pub next_sequence_num : SequenceNumber
  pub next_superblock_number : SuperblockNumber
  pub last_finalized_superblock_number : ℕ
  pub last_finalized_superblock_hash : Bytes
  pub pending_proofs : List (ℕ × ChainProof)
  pub proof_collection_started : Option ℕ

unfoldable pub new : CoordinatorState
new = record {
  chain_to_client = [];
  client_to_chain = [];
  active_xts = [];
  active_chains = [];
  pending_queue = [];
  current_period_id = 0;
  next_sequence_num = 1;
  next_superblock_number = 1;
  last_finalized_superblock_number = 0;
  last_finalized_superblock_hash = [];
  pending_proofs = [];
  proof_collection_started = none;
}

-- The `if let Some(old_chain)` of `register_chain`.
unfoldable pub forget_chain : Option ChainId → List (ChainId × Text) → List (ChainId × Text)
forget_chain none chain_to_client = chain_to_client
forget_chain (some old_chain) chain_to_client = remove ℕ_discrete old_chain chain_to_client

unfoldable pub register_chain : CoordinatorState → Text → ChainId → CoordinatorState
unfolding forget_chain
register_chain s client_id chain_id = record s {
  chain_to_client =
      insert ℕ_discrete chain_id client_id
        (forget_chain (get text_discrete client_id s.client_to_chain) s.chain_to_client);
  client_to_chain = insert text_discrete client_id chain_id s.client_to_chain;
}

unfoldable pub has_overlap : CoordinatorState → List ChainId → Bool
has_overlap s chains = any (λ c. contains_key ℕ_discrete c s.active_chains) chains

-- The loop of `reserve_chains`, over the map that it changes.
unfoldable pub reserve : Text → List ChainId → List (ChainId × Text) → List (ChainId × Text)
reserve xt_id [] m = m
reserve xt_id (c ∷ cs) m = reserve xt_id cs (insert ℕ_discrete c xt_id m)

unfoldable pub reserve_chains : CoordinatorState → Text → List ChainId → CoordinatorState
unfolding reserve
reserve_chains s xt_id chains = record s { active_chains = reserve xt_id chains s.active_chains }

-- Does the chain belong to the transaction: `get(chain_id).map(String::as_str) == Some(xt_id)`.
unfoldable pub is_held_by : Text → Option Text → Bool
is_held_by xt_id none = false
is_held_by xt_id (some holder) = ite (text_discrete holder xt_id) true false

-- The loop of `release_chains`, over the map that it changes.
unfoldable pub release : Text → List ChainId → List (ChainId × Text) → List (ChainId × Text)
unfolding is_held_by
release xt_id [] m = m
release xt_id (c ∷ cs) m =
    release xt_id cs (if is_held_by xt_id (get ℕ_discrete c m) then remove ℕ_discrete c m else m)

unfoldable pub release_of : Text → Option ActiveXt → List (ChainId × Text) → List (ChainId × Text)
unfolding release
release_of xt_id none m = m
release_of xt_id (some xt) m = release xt_id xt.chains m

unfoldable pub release_chains : CoordinatorState → Text → CoordinatorState
unfolding release_of
release_chains s xt_id = record s {
  active_chains = release_of xt_id (get text_discrete xt_id s.active_xts) s.active_chains;
}

-- `check_decision`, once the transaction is found.
unfoldable pub decision_of : ActiveXt → Option Bool
unfolding all
decision_of xt =
    if ltb (length xt.votes) (length xt.chains) then none else some (all (λ v. v) (values xt.votes))

unfoldable pub check_decision : CoordinatorState → Text → Option Bool
unfolding decision_of
check_decision s xt_id = elim (get text_discrete xt_id s.active_xts) [
  | none ↦ none
  | some xt ↦ decision_of xt
]

abbrev pub sender : Text
sender = codes "publisher"

abbrev pub envelope : Messages.Payload → Message
envelope p = record { sender_id = sender; payload = some p }

abbrev pub decided_message : Bytes → Bool → Message
decided_message instance_id decision =
    envelope (Messages.decided (record { instance_id = instance_id; decision = decision }))
