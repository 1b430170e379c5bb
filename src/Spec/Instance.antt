-- ===== src/Spec/Instance.antt =====
-- crates/spec/src/instance.rs: cross-chain requests, instances, and the chains that they touch.
pub mod Chains
use publisher.Base.{Bool, List, [], ◌∷◌, ◌++◌, ℕ_discrete}
use publisher.Base.Tests.{if◌then◌else◌}
use publisher.Base.Lists.{contains}
use publisher.Spec.Primitives.{Bytes, Text, codes, ChainId, InstanceId, PeriodId, SequenceNumber}

-- The first state is the default.
pub data DecisionState : Type 0 where
  pending : DecisionState
  accepted : DecisionState
  rejected : DecisionState

-- `Display` of `DecisionState`.
abbrev pub state_text : DecisionState → Text
state_text pending = codes "Pending"
state_text accepted = codes "Accepted"
state_text rejected = codes "Rejected"

pub record TransactionRequest : Type 0 where
  pub chain_id : ChainId
  pub transactions : List Bytes

pub record XtRequest : Type 0 where
  pub transactions : List TransactionRequest

pub record Instance : Type 0 where
  pub id : InstanceId
  pub period_id : PeriodId
  pub sequence_number : SequenceNumber
  pub xt_request : XtRequest

-- The loop of `chains_from_request`: `seen` is the hash set, `chains` the vector.
unfoldable pub collect_chains : List TransactionRequest → List ChainId → List ChainId → List ChainId
unfolding contains
collect_chains [] seen chains = chains
collect_chains (r ∷ rs) seen chains =
    collect_chains rs (if known then seen else r.chain_id ∷ seen)
      (if known then chains else chains ++ r.chain_id ∷ [])
  where
    known : Bool
    known = contains ℕ_discrete seen r.chain_id

unfoldable pub chains_from_request : XtRequest → List ChainId
unfolding collect_chains
chains_from_request xt_request = collect_chains xt_request.transactions [] []

-- `Instance::chains`.
abbrev pub chains : Instance → List ChainId
chains i = chains_from_request i.xt_request

unfoldable pub clone_byte_slices : List Bytes → List Bytes
clone_byte_slices src = src
