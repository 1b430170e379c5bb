-- ===== src/Sbcp/Block.antt =====
-- crates/spec-sbcp/src/block.rs.
use publisher.Base.{ℕ}
use publisher.Spec.Primitives.{BlockHash, StateRoot, PeriodId, SuperblockNumber, SuperblockHash}

abbrev pub BlockNumber : Type 0
BlockNumber = ℕ

pub record PendingBlock : Type 0 where
  pub number : BlockNumber
  pub period_id : PeriodId
  pub superblock_number : SuperblockNumber

pub record BlockHeader : Type 0 where
  pub number : BlockNumber
  pub block_hash : BlockHash
  pub state_root : StateRoot

pub record SealedBlockHeader : Type 0 where
  pub block_header : BlockHeader
  pub period_id : PeriodId
  pub superblock_number : SuperblockNumber

pub record SettledState : Type 0 where
  pub block_header : BlockHeader
  pub superblock_number : SuperblockNumber
  pub superblock_hash : SuperblockHash
