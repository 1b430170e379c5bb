-- ===== src/Proto/Convert.antt =====
-- crates/spec-proto/src/convert.rs: conversions between wire messages and domain types.
use publisher.Base.{◌≡◌, refl, ap, Option, none, some, List, [], ◌∷◌, map, arith, ◌≢◌}
use publisher.Base.Tests.{◌==◌, if◌then◌else◌}
use publisher.Base.Lists.{length}
use publisher.Base.Results.{Result, ok, err}
use publisher.Spec.Primitives.{PeriodId, SuperblockNumber}
use publisher.Spec.Instance
use publisher.Spec.Instance.{Instance}
use publisher.Proto.Messages
use publisher.Proto.Messages.{StartInstance, StartPeriod}

unfoldable pub transaction_to_proto : Instance.TransactionRequest → Messages.TransactionRequest
transaction_to_proto r = record { chain_id = r.chain_id; transaction = r.transactions }

unfoldable pub transaction_from_proto : Messages.TransactionRequest → Instance.TransactionRequest
transaction_from_proto r = record { chain_id = r.chain_id; transactions = r.transaction }

unfoldable pub xt_to_proto : Instance.XtRequest → Messages.XtRequest
unfolding transaction_to_proto
xt_to_proto r = record { transaction_requests = map transaction_to_proto r.transactions }

unfoldable pub xt_from_proto : Messages.XtRequest → Instance.XtRequest
unfolding transaction_from_proto
xt_from_proto r = record { transactions = map transaction_from_proto r.transaction_requests }

unfoldable pub start_instance_of : Instance → StartInstance
unfolding xt_to_proto
start_instance_of i = record {
  instance_id = i.id;
  period_id = i.period_id;
  sequence_number = i.sequence_number;
  xt_request = some (xt_to_proto i.xt_request);
}

-- The one error of `TryFrom`, "instance_id must be 32 bytes".
pub data ConvertError : Type 0 where
  bad_instance_id : ConvertError

-- A missing request becomes the default one.
unfoldable pub xt_or_default : Option Messages.XtRequest → Instance.XtRequest
unfolding xt_from_proto
xt_or_default none = record { transactions = [] }
xt_or_default (some r) = xt_from_proto r

unfoldable pub instance_of : StartInstance → Result ConvertError Instance
unfolding xt_or_default
instance_of si =
    if length si.instance_id == 32
    then ok (record {
      id = si.instance_id;
      period_id = si.period_id;
      sequence_number = si.sequence_number;
      xt_request = xt_or_default si.xt_request;
    })
    else err bad_instance_id

unfoldable pub period_of : StartPeriod → PeriodId × SuperblockNumber
period_of sp = (sp.period_id, sp.superblock_number)

transactions_back :
    (rs : List Instance.TransactionRequest)
    → map transaction_from_proto (map transaction_to_proto rs) ≡ rs
unfolding transaction_from_proto transaction_to_proto
transactions_back [] = refl
transactions_back (r ∷ rs) = ap (◌∷◌ r) (transactions_back rs)

-- An instance with an id of 32 bytes that is sent as a `StartInstance` is read back unchanged, and
-- a message whose id has another length is refused.
pub instance_of-start_instance_of :
    (i : Instance) (si : StartInstance)
    → length i.id ≡ 32
    → length si.instance_id ≢ 32
    → (instance_of (start_instance_of i) ≡ ok i) × (instance_of si ≡ err bad_instance_id)
unfolding instance_of start_instance_of
instance_of-start_instance_of i si h g =
    (rw (h, transactions_back i.xt_request.transactions), ground arith)
