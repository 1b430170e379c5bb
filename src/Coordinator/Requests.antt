-- ===== src/Coordinator/Requests.antt =====
-- crates/coordinator/src/coordinator.rs: the free functions over a wire request.
use publisher.Base.{◌≡◌, refl, Bool, List, [], ◌∷◌, ◌++◌, map, ℕ_discrete}
use publisher.Base.Tests.{if◌then◌else◌}
use publisher.Base.Lists.{contains}
use publisher.Spec.Primitives.{ChainId}
use publisher.Spec.Instance
use publisher.Spec.Instance.{collect_chains, chains_from_request}
use publisher.Proto.Messages.{XtRequest, TransactionRequest}

-- The loop of `extract_chains`: `seen` is the hash set.
unfoldable pub extract_from : List TransactionRequest → List ChainId → List ChainId → List ChainId
unfolding contains
extract_from [] seen chains = chains
extract_from (tr ∷ trs) seen chains =
    extract_from trs (if known then seen else tr.chain_id ∷ seen)
      (if known then chains else chains ++ tr.chain_id ∷ [])
  where
    known : Bool
    known = contains ℕ_discrete seen tr.chain_id

unfoldable pub extract_chains : XtRequest → List ChainId
unfolding extract_from
extract_chains req = extract_from req.transaction_requests [] []

unfoldable pub proto_to_spec_xt : XtRequest → Instance.XtRequest
proto_to_spec_xt req = record {
  transactions =
      map (λ tr. record { chain_id = tr.chain_id; transactions = tr.transaction })
        req.transaction_requests;
}

extract_from-collect_chains :
    (trs : List TransactionRequest) (seen chains : List ChainId)
    → extract_from trs seen chains
      ≡ collect_chains
          (map (λ tr. record { chain_id = tr.chain_id; transactions = tr.transaction }) trs)
          seen
          chains
unfolding extract_from collect_chains
extract_from-collect_chains [] seen chains = refl
extract_from-collect_chains (tr ∷ trs) seen chains = extract_from-collect_chains trs _ _

-- The coordinator's chains of a wire request are the domain's chains of the converted request.
pub extract_chains-proto_to_spec_xt :
    (req : XtRequest) → extract_chains req ≡ chains_from_request (proto_to_spec_xt req)
unfolding extract_chains chains_from_request proto_to_spec_xt
extract_chains-proto_to_spec_xt req = extract_from-collect_chains req.transaction_requests [] []
