-- ===== src/Scenarios.antt =====
-- The unit tests of crates/transport/src/framing.rs, crates/spec-proto/src/convert.rs,
-- crates/spec/src/instance.rs and primitives.rs, crates/coordinator/src/handlers.rs and
-- crates/config/src/lib.rs, as what they assert of the model.
use publisher.Base.{◌≡◌, refl, true, false, some, List, [], ◌∷◌, ◌++◌, ◌*◌, ℕ_discrete}
use publisher.Base.Lists.{length, contains}
use publisher.Base.Words.{to_be_bytes, add64, sub64}
use publisher.Base.Results.{ok, err}
use publisher.Spec.Primitives.{Bytes, Text, codes, text_discrete, to_string, address_text}
use publisher.Spec.Instance.{
  XtRequest, Instance, chains_from_request, pending, accepted, rejected, state_text,
  clone_byte_slices,
}
use publisher.Proto.Convert.{xt_to_proto, xt_from_proto, start_instance_of, instance_of}
use publisher.Transport.Framing.{default_codec, encode, message_too_large}
use publisher.Coordinator.ChainIds.{parse_chain_id, no_chain_id}
use publisher.Config.{Outside, default_config, from_secs, env_str, env_duration, env_bool}
use publisher.Sbcp.Scenarios.Blocks.{filled}

abbrev hello : Bytes
hello = codes "hello world"

abbrev RoundTrip : Type 0
RoundTrip = encode default_codec hello ≡ ok (to_be_bytes 4 (length hello) ++ hello)

RoundTrip_holds : RoundTrip
unfolding encode
RoundTrip_holds = refl

abbrev eleven_bytes : Bytes
eleven_bytes = 0 ∷ 0 ∷ 0 ∷ 0 ∷ 0 ∷ 0 ∷ 0 ∷ 0 ∷ 0 ∷ 0 ∷ 0 ∷ []

abbrev RejectsOversized : Type 0
RejectsOversized =
    encode (record { max_message_size = 10 }) eleven_bytes ≡ err (message_too_large 11 10)

RejectsOversized_holds : RejectsOversized
unfolding encode
RejectsOversized_holds = refl

abbrev sent_request : XtRequest
sent_request = record {
  transactions =
      record { chain_id = 1; transactions = codes "tx1" ∷ codes "tx2" ∷ [] }
      ∷ record { chain_id = 2; transactions = codes "tx3" ∷ [] }
      ∷ [];
}

abbrev XtRequestDomainRoundtrip : Type 0
XtRequestDomainRoundtrip = xt_from_proto (xt_to_proto sent_request) ≡ sent_request

XtRequestDomainRoundtrip_holds : XtRequestDomainRoundtrip
unfolding xt_from_proto xt_to_proto
XtRequestDomainRoundtrip_holds = refl

abbrev sent_instance : Instance
sent_instance = record {
  id = filled 42;
  period_id = 7;
  sequence_number = 3;
  xt_request = record {
    transactions = record { chain_id = 1; transactions = codes "a" ∷ [] } ∷ [];
  };
}

abbrev StartInstanceDomainRoundtrip : Type 0
StartInstanceDomainRoundtrip = instance_of (start_instance_of sent_instance) ≡ ok sent_instance

StartInstanceDomainRoundtrip_holds : StartInstanceDomainRoundtrip
unfolding start_instance_of instance_of
StartInstanceDomainRoundtrip_holds = refl

abbrev repeated : XtRequest
repeated = record {
  transactions =
      record { chain_id = 1; transactions = (1 ∷ []) ∷ [] }
      ∷ record { chain_id = 1; transactions = (2 ∷ []) ∷ [] }
      ∷ record { chain_id = 2; transactions = (3 ∷ []) ∷ [] }
      ∷ [];
}

abbrev ChainsFromRequestDeduplicates : Type 0
ChainsFromRequestDeduplicates =
    (length (chains_from_request repeated) ≡ 2)
    × (contains ℕ_discrete (chains_from_request repeated) 1 ≡ true)
    × (contains ℕ_discrete (chains_from_request repeated) 2 ≡ true)

ChainsFromRequestDeduplicates_holds : ChainsFromRequestDeduplicates
unfolding chains_from_request contains ℕ_discrete
ChainsFromRequestDeduplicates_holds = (refl, refl, refl)

abbrev counting : Bytes
counting =
    1 ∷ 2 ∷ 3 ∷ 4 ∷ 5 ∷ 6 ∷ 7 ∷ 8 ∷ 9 ∷ 10 ∷ 11 ∷ 12 ∷ 13 ∷ 14 ∷ 15 ∷ 16 ∷ 17 ∷ 18 ∷ 19 ∷ 20 ∷ 21
    ∷ 22 ∷ 23 ∷ 24 ∷ 25 ∷ 26 ∷ 27 ∷ 28 ∷ 29 ∷ 30 ∷ 31 ∷ 32 ∷ []

abbrev InstanceIdDisplay : Type 0
InstanceIdDisplay =
    to_string counting ≡ codes "0102030405060708090a0b0c0d0e0f101112131415161718191a1b1c1d1e1f20"

InstanceIdDisplay_holds : InstanceIdDisplay
unfolding to_string
InstanceIdDisplay_holds = refl

abbrev ones : Bytes
ones = 1 ∷ 1 ∷ 1 ∷ 1 ∷ 1 ∷ 1 ∷ 1 ∷ 1 ∷ 1 ∷ 1 ∷ 1 ∷ 1 ∷ 1 ∷ 1 ∷ 1 ∷ 1 ∷ 1 ∷ 1 ∷ 1 ∷ 1 ∷ []

abbrev EthAddressDisplay : Type 0
EthAddressDisplay =
    ((rest : Text) × (address_text ones ≡ codes "0x" ++ rest)) × (length (address_text ones) ≡ 42)

EthAddressDisplay_holds : EthAddressDisplay
unfolding address_text to_string
EthAddressDisplay_holds = ((to_string ones, refl), refl)

abbrev NumericNewtypeArithmetic : Type 0
NumericNewtypeArithmetic =
    (add64 10 3 ≡ 13) × (sub64 10 3 ≡ 7) × (add64 10 5 ≡ 15) × (sub64 10 2 ≡ 8)

NumericNewtypeArithmetic_holds : NumericNewtypeArithmetic
unfolding add64 sub64
NumericNewtypeArithmetic_holds = (refl, refl, refl, refl)

abbrev DecisionStateDisplay : Type 0
DecisionStateDisplay =
    (state_text pending ≡ codes "Pending")
    × (state_text accepted ≡ codes "Accepted")
    × (state_text rejected ≡ codes "Rejected")

DecisionStateDisplay_holds : DecisionStateDisplay
DecisionStateDisplay_holds = (refl, refl, refl)

abbrev some_slices : List Bytes
some_slices = (1 ∷ 2 ∷ 3 ∷ []) ∷ (4 ∷ 5 ∷ []) ∷ []

abbrev CloneByteSlicesWorks : Type 0
CloneByteSlicesWorks = clone_byte_slices some_slices ≡ some_slices

CloneByteSlicesWorks_holds : CloneByteSlicesWorks
unfolding clone_byte_slices
CloneByteSlicesWorks_holds = refl

abbrev ParseChainIdNumericPrefix : Type 0
ParseChainIdNumericPrefix =
    (parse_chain_id (codes "77777") ≡ ok 77777)
    × (parse_chain_id (codes "88888-sidecar") ≡ ok 88888)
    × (parse_chain_id (codes "abc") ≡ err (no_chain_id (codes "abc")))
    × (parse_chain_id [] ≡ err (no_chain_id []))

ParseChainIdNumericPrefix_holds : ParseChainIdNumericPrefix
unfolding parse_chain_id
ParseChainIdNumericPrefix_holds = (refl, refl, refl, refl)

abbrev Defaults : Type 0
Defaults =
    (default_config.server.listen_addr ≡ codes ":8080")
    × (default_config.server.max_message_size ≡ 4 * 1024 * 1024)
    × (default_config.api.listen_addr ≡ codes ":8081")
    × (default_config.api.request_timeout ≡ from_secs 15)
    × (default_config.consensus.timeout ≡ from_secs 60)
    × (default_config.consensus.period_duration ≡ from_secs 3840)
    × (default_config.consensus.proof_window ≡ from_secs 7200)
    × (default_config.metrics.enabled ≡ true)
    × (default_config.log.level ≡ codes "info")
    × (default_config.log.pretty ≡ false)

Defaults_hold : Defaults
Defaults_hold = (refl, refl, refl, refl, refl, refl, refl, refl, refl, refl)

-- An environment in which every variable has one value, which is five seconds as a duration.
abbrev set_to : Text → Outside
set_to value = record {
  var = λ key. some value;
  parse_duration = λ t. some (from_secs 5);
  from_str = λ t. ok default_config;
}

abbrev EnvOverrideString : Type 0
EnvOverrideString =
    env_str (set_to (codes "new")) (codes "TEST_CFG_STR") (codes "old") ≡ codes "new"

EnvOverrideString_holds : EnvOverrideString
unfolding env_str
EnvOverrideString_holds = refl

abbrev EnvOverrideDuration : Type 0
EnvOverrideDuration =
    env_duration (set_to (codes "5s")) (codes "TEST_CFG_DUR") (from_secs 10) ≡ from_secs 5

EnvOverrideDuration_holds : EnvOverrideDuration
unfolding env_duration
EnvOverrideDuration_holds = refl

abbrev EnvOverrideBool : Type 0
EnvOverrideBool = env_bool (set_to (codes "true")) (codes "TEST_CFG_BOOL") false ≡ true

EnvOverrideBool_holds : EnvOverrideBool
unfolding env_bool text_discrete
EnvOverrideBool_holds = refl
