-- ===== src/Tests/Wire.antt =====
-- Runs of crates/transport, crates/spec, crates/spec-proto and crates/spec-sbcp/src/id.rs.
use publisher.Base.{ℕ, ◌<◌, ◌≡◌, refl, none, [], ◌∷◌, arith}
use publisher.Base.Words.{u64_mod}
use publisher.Base.Results.{ok, err}
use publisher.Spec.Primitives.{Bytes, InstanceId}
use publisher.Spec.Instance.{XtRequest, Instance}
use publisher.Proto.Messages.{StartInstance}
use publisher.Proto.Convert.{
  instance_of, start_instance_of, bad_instance_id, instance_of-start_instance_of,
}
use publisher.Sbcp.Id.{generate_instance_id}
use publisher.Sbcp.Id.Injective.{IsProper, preimage-injective, generate_instance_id_ignores_empty}

abbrev one_byte : Bytes
one_byte = 9 ∷ []

abbrev small : XtRequest
small = record {
  transactions =
      record { chain_id = 1; transactions = one_byte ∷ [] }
      ∷ record { chain_id = 2; transactions = one_byte ∷ [] }
      ∷ [];
}

-- An id of 32 bytes.
abbrev long_id : InstanceId
long_id =
    1 ∷ 1 ∷ 1 ∷ 1 ∷ 1 ∷ 1 ∷ 1 ∷ 1 ∷ 1 ∷ 1 ∷ 1 ∷ 1 ∷ 1 ∷ 1 ∷ 1 ∷ 1 ∷ 1 ∷ 1 ∷ 1 ∷ 1 ∷ 1 ∷ 1 ∷ 1 ∷ 1
    ∷ 1 ∷ 1 ∷ 1 ∷ 1 ∷ 1 ∷ 1 ∷ 1 ∷ 1 ∷ []

abbrev sent : Instance
sent = record { id = long_id; period_id = 4; sequence_number = 1; xt_request = small }

abbrev short : StartInstance
short = record { instance_id = one_byte; period_id = 4; sequence_number = 1; xt_request = none }

instance_of-start_instance_of_example :
    (instance_of (start_instance_of sent) ≡ ok sent) × (instance_of short ≡ err bad_instance_id)
instance_of-start_instance_of_example =
    instance_of-start_instance_of sent short refl (λ e. omega arith)

preimage-injective_example : (sent.period_id ≡ 4) × (sent.sequence_number ≡ 1) × (small ≡ small)
preimage-injective_example =
    preimage-injective 4 4 1 1 small small (omega arith) (omega arith) (omega arith) (omega arith)
      (proper 1 (omega arith), (proper 2 (omega arith), tt))
      (proper 1 (omega arith), (proper 2 (omega arith), tt)) refl
  where
    proper :
        (c : ℕ) → c < u64_mod → IsProper (record { chain_id = c; transactions = one_byte ∷ [] })
    proper c h = record { chain = h; count = omega arith; sized = ((omega arith, omega arith), tt) }

generate_instance_id_ignores_empty_example :
    generate_instance_id
      (λ b. b)
      4
      1
      (record { transactions = record { chain_id = 1; transactions = [] ∷ one_byte ∷ [] } ∷ [] })
    ≡ generate_instance_id
        (λ b. b)
        4
        1
        (record { transactions = record { chain_id = 1; transactions = one_byte ∷ [] ∷ [] } ∷ [] })
generate_instance_id_ignores_empty_example =
    generate_instance_id_ignores_empty (λ b. b) 4 1 1 ([] ∷ one_byte ∷ []) (one_byte ∷ [] ∷ []) []
      refl refl
