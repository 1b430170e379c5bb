-- ===== src/Sbcp/Id.antt =====
-- crates/spec-sbcp/src/id.rs. SHA-256 is a parameter; its incremental `update` hashes the
-- concatenation of what it is given.
pub mod Injective
use publisher.Base.{List, [], ◌∷◌, ◌++◌}
use publisher.Base.Tests.{if◌then◌else◌}
use publisher.Base.Lists.{length, is_empty}
use publisher.Base.Words.{to_be_bytes}
use publisher.Spec.Primitives.{Bytes, InstanceId, PeriodId, SequenceNumber}
use publisher.Spec.Instance.{TransactionRequest, XtRequest}

-- The inner loop: an empty transaction adds nothing.
unfoldable pub transaction_bytes : List Bytes → Bytes
transaction_bytes [] = []
transaction_bytes (d ∷ ds) =
    (if is_empty d then [] else to_be_bytes 8 (length d) ++ d) ++ transaction_bytes ds

-- The outer loop.
unfoldable pub request_bytes : List TransactionRequest → Bytes
unfolding transaction_bytes
request_bytes [] = []
request_bytes (r ∷ rs) =
    to_be_bytes 8 r.chain_id
    ++ (to_be_bytes 8 (length r.transactions)
        ++ (transaction_bytes r.transactions ++ request_bytes rs))

-- Everything that the hasher is fed.
unfoldable pub preimage : PeriodId → SequenceNumber → XtRequest → Bytes
unfolding request_bytes
preimage period_id seq xt_request =
    to_be_bytes 8 period_id ++ (to_be_bytes 8 seq ++ request_bytes xt_request.transactions)

module _ (sha256 : Bytes → Bytes) where
  unfoldable pub generate_instance_id : PeriodId → SequenceNumber → XtRequest → InstanceId
  unfolding preimage
  generate_instance_id period_id seq xt_request = sha256 (preimage period_id seq xt_request)
