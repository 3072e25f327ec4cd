-- ===== src/Model/Milestone.antt =====
-- Milestones: src/model/block/payload/milestone, and signatures.
use inx_chronicle.Common.{ℕ, Bool, List}
use inx_chronicle.Common.Bytes.{Bytes}
use inx_chronicle.Model.Address.{Address}

-- `MilestoneIndex` and `MilestoneTimestamp` are `u32` numbers.
pub record MilestoneIndexTimestamp : Type 0 where
  pub milestone_index : ℕ
  pub milestone_timestamp : ℕ

pub data Signature : Type 0 where
  ed25519 : (public_key signature : Bytes) → Signature

pub record TreasuryTransactionPayload : Type 0 where
  pub input_milestone_id : Bytes
  pub output_amount : ℕ

pub record MigratedFundsEntry : Type 0 where
  pub tail_transaction_hash : Bytes
  pub address : Address
  pub amount : ℕ

pub data MilestoneOption : Type 0 where
  receipt :
      (migrated_at : ℕ) (last : Bool) (funds : List MigratedFundsEntry)
      (transaction : TreasuryTransactionPayload)
      → MilestoneOption
  parameters :
      (target_milestone_index protocol_version : ℕ) (binary_parameters : Bytes) → MilestoneOption

pub record MilestoneEssence : Type 0 where
  pub index : ℕ
  pub timestamp : ℕ
  pub protocol_version : ℕ
  pub previous_milestone_id : Bytes
  pub parents : List Bytes
  pub inclusion_merkle_root : Bytes
  pub applied_merkle_root : Bytes
  pub metadata : Bytes
  pub options : List MilestoneOption

pub record MilestonePayload : Type 0 where
  pub essence : MilestoneEssence
  pub signatures : List Signature
