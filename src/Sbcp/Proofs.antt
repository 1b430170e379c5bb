-- ===== src/Sbcp/Proofs.antt =====
-- crates/spec-sbcp/src/publisher.rs: `receive_proof`. The prover is asked with no lock held, so the
-- two critical sections are functions of their own, and other calls may come between them.
use publisher.Base.{Bool, false, not, Option, none, some, List, [], ◌∷◌, ℕ_discrete}
use publisher.Base.Tests.{ltb, leb, ◌==◌, if◌then◌else◌}
use publisher.Base.Lists.{length}
use publisher.Base.Maps.{get, contains_key, insert, remove, values}
use publisher.Base.Words.{add64, sub64}
use publisher.Base.Results.{Result, ok, err}
use publisher.Spec.Primitives.{Bytes, Text, ChainId, PeriodId, SuperblockNumber, SuperblockHash}
use publisher.Sbcp.Publisher.{PublisherState, Call, publish_proof, rollback}

abbrev pub or_default : Option (List (ChainId × Bytes)) → List (ChainId × Bytes)
or_default none = []
or_default (some m) = m

-- The proofs of a superblock: `entry(…).or_default()`.
unfoldable pub proofs_of : PublisherState → SuperblockNumber → List (ChainId × Bytes)
proofs_of s superblock_number = or_default (get ℕ_discrete superblock_number s.proofs)

-- The guards before the duplicate check: whether the proof is looked at.
unfoldable pub is_expected : PublisherState → PeriodId → SuperblockNumber → Bool
is_expected s period_id superblock_number =
    if leb superblock_number s.last_finalized_superblock_number
    then false
    else if leb s.target_superblock_number superblock_number
    then false
    else if not (superblock_number == add64 s.last_finalized_superblock_number 1)
    then false
    else period_id == sub64 s.period_id (sub64 s.target_superblock_number superblock_number)

-- The first critical section; `some` is the hash and the proofs that the prover is given.
unfoldable pub collect :
    PublisherState
    → PeriodId
    → SuperblockNumber
    → Bytes
    → ChainId
    → PublisherState × Option (SuperblockHash × List Bytes)
unfolding proofs_of
collect s period_id superblock_number proof chain_id =
    let sb_proofs = proofs_of s superblock_number in
    let opened = record s { proofs = insert ℕ_discrete superblock_number sb_proofs s.proofs } in
    let stored = insert ℕ_discrete chain_id proof sb_proofs in
    let kept = record s { proofs = insert ℕ_discrete superblock_number stored s.proofs } in
    if not (is_expected s period_id superblock_number)
    then (s, none)
    else if contains_key ℕ_discrete chain_id sb_proofs
    then (opened, none)
    else if ltb (length stored) (length s.chain_set)
    then (kept, none)
    else (kept, some (s.last_finalized_superblock_hash, values stored))

-- The second one, with the prover's answer.
unfoldable pub conclude :
    PublisherState → SuperblockNumber → Result Text Bytes → PublisherState × List Call
unfolding rollback
conclude s superblock_number (ok network_proof) = (
  record s { proofs = remove ℕ_discrete superblock_number s.proofs },
  publish_proof superblock_number network_proof ∷ [],
)
conclude s superblock_number (err e) = rollback s

abbrev pub Prover : Type 0
Prover = SuperblockNumber → SuperblockHash → List Bytes → Result Text Bytes

unfoldable pub aggregate :
    Prover
    → SuperblockNumber
    → PublisherState × Option (SuperblockHash × List Bytes)
    → PublisherState × List Call
unfolding conclude
aggregate prover superblock_number (s, none) = (s, [])
aggregate prover superblock_number (s, some (hash, seq_proofs)) =
    conclude s superblock_number (prover superblock_number hash seq_proofs)

-- `receive_proof` when nothing comes between.
unfoldable pub receive_proof :
    Prover
    → PublisherState
    → PeriodId
    → SuperblockNumber
    → Bytes
    → ChainId
    → PublisherState × List Call
unfolding collect is_expected aggregate
receive_proof prover s period_id superblock_number proof chain_id =
    aggregate prover superblock_number (collect s period_id superblock_number proof chain_id)
