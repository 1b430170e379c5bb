-- ===== src/Sbcp/Scenarios/Ids.antt =====
-- crates/spec-sbcp/src/id.rs, `mod tests`: what an instance id depends on. SHA-256 is taken for the
-- identity, which tells apart whatever differs.
use publisher.Base.{◌≡◌, refl, ite, Bool, true, false, [], ◌∷◌}
use publisher.Base.Words.{to_be_bytes}
use publisher.Spec.Primitives.{Bytes, text_discrete, PeriodId, SequenceNumber}
use publisher.Spec.Instance.{XtRequest}
use publisher.Sbcp.Id.{generate_instance_id}
use publisher.Sbcp.Scenarios.Instances.{sha256, chain_req, make_xt_request}

abbrev id_of : PeriodId → SequenceNumber → XtRequest → Bytes
id_of period seq request = generate_instance_id sha256 period seq request

abbrev same_ids : Bytes → Bytes → Bool
same_ids i j = ite (text_discrete i j) true false

abbrev two_entries : Bytes → XtRequest
two_entries tx = make_xt_request (chain_req 1 ((1 ∷ 2 ∷ []) ∷ []) ∷ chain_req 2 (tx ∷ []) ∷ [])

abbrev StabilityAndSensitivity : Type 0
StabilityAndSensitivity =
    let request = two_entries (3 ∷ []) in
    let reordered =
      make_xt_request (chain_req 2 ((3 ∷ []) ∷ []) ∷ chain_req 1 ((1 ∷ 2 ∷ []) ∷ []) ∷ []) in
    let omitted = make_xt_request (chain_req 1 ((1 ∷ 2 ∷ []) ∷ []) ∷ []) in
    (same_ids (id_of 10 1 request) (id_of 10 1 request) ≡ true)
    × (same_ids (id_of 10 1 request) (id_of 11 1 request) ≡ false)
    × (same_ids (id_of 10 1 request) (id_of 10 2 request) ≡ false)
    × (same_ids (id_of 10 1 request) (id_of 10 1 (two_entries (255 ∷ []))) ≡ false)
    × (same_ids (id_of 10 1 request) (id_of 10 1 reordered) ≡ false)
    × (same_ids (id_of 10 3 (two_entries [])) (id_of 10 3 omitted) ≡ false)

StabilityAndSensitivity_holds : StabilityAndSensitivity
unfolding generate_instance_id to_be_bytes text_discrete
StabilityAndSensitivity_holds = (refl, refl, refl, refl, refl, refl)
