-- ===== src/Model/Ledger.antt =====
-- Created and spent outputs: src/model/block/payload/transaction/output/ledger.rs.
use inx_chronicle.Common.{ℕ, Option}
use inx_chronicle.Common.Bytes.{Bytes}
use inx_chronicle.Model.Address.{Address, OutputId}
use inx_chronicle.Model.Output
use inx_chronicle.Model.Output.{Output, TokenAmount, output_amount}
use inx_chronicle.Model.Milestone.{MilestoneIndexTimestamp}

pub record RentStructureBytes : Type 0 where
  pub num_key_bytes : ℕ
  pub num_data_bytes : ℕ

pub record LedgerOutput : Type 0 where
  pub output_id : OutputId
  pub block_id : Bytes
  pub booked : MilestoneIndexTimestamp
  pub output : Output
  pub rent_structure : RentStructureBytes

pub record SpentMetadata : Type 0 where
  pub transaction_id : Bytes
  pub spent : MilestoneIndexTimestamp

pub record LedgerSpent : Type 0 where
  pub output : LedgerOutput
  pub spent_metadata : SpentMetadata

-- `LedgerOutput::amount`
abbrev pub amount : LedgerOutput → TokenAmount
amount o = output_amount o.output

-- `LedgerOutput::owning_address`
abbrev pub owning_address : LedgerOutput → Option Address
owning_address o = Output.owning_address o.output
