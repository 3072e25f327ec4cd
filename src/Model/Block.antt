-- ===== src/Model/Block.antt =====
-- Blocks and their payloads: src/model/block.
use inx_chronicle.Common.{ℕ, List}
use inx_chronicle.Common.Bytes.{Bytes}
use inx_chronicle.Model.Address.{OutputId}
use inx_chronicle.Model.Output.{Output}
use inx_chronicle.Model.Milestone.{Signature, TreasuryTransactionPayload, MilestonePayload}

pub data Input : Type 0 where
  utxo : OutputId → Input
  treasury : (milestone_id : Bytes) → Input

pub data Unlock : Type 0 where
  signature : Signature → Unlock
  reference alias nft : (index : ℕ) → Unlock

pub record TaggedDataPayload : Type 0 where
  pub tag : Bytes
  pub content : Bytes

mutual
  pub data Payload : Type 0 where
    transaction : TransactionPayload → Payload
    milestone : MilestonePayload → Payload
    treasury_transaction : TreasuryTransactionPayload → Payload
    tagged_data : TaggedDataPayload → Payload

  pub data TransactionPayload : Type 0 where
    transaction_payload :
        (transaction_id : Bytes) (essence : TransactionEssence) (unlocks : List Unlock)
        → TransactionPayload

  -- the last field is the optional payload of the essence
  pub data TransactionEssence : Type 0 where
    regular :
        (network_id : ℕ) (inputs : List Input) (inputs_commitment : Bytes) (outputs : List Output)
        (payload : OptionPayload)
        → TransactionEssence

  -- `Option<Payload>`
  pub data OptionPayload : Type 0 where
    no_payload : OptionPayload
    with_payload : Payload → OptionPayload

pub record Block : Type 0 where
  pub protocol_version : ℕ
  pub parents : List Bytes
  pub payload : OptionPayload
  pub nonce : ℕ
