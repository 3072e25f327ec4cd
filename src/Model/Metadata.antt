-- ===== src/Model/Metadata.antt =====
-- Block metadata: src/model/block/metadata.
use inx_chronicle.Common.{ℕ, Bool, true, false, List}
use inx_chronicle.Common.Bytes.{Bytes}

pub data ConflictReason : Type 0 where
  no_conflict input_utxo_already_spent input_utxo_already_spent_in_this_milestone
        input_utxo_not_found created_consumed_amount_mismatch invalid_signature timelock_not_expired
        invalid_native_tokens storage_deposit_return_unfulfilled invalid_unlock
        inputs_commitments_mismatch unverified_sender invalid_chain_state_transition
        semantic_validation_failed :
      ConflictReason

pub data LedgerInclusionState : Type 0 where
  conflicting included no_transaction : LedgerInclusionState

-- `inclusion_state == LedgerInclusionState::Included`
abbrev pub is_included : LedgerInclusionState → Bool
is_included included = true
is_included conflicting = false
is_included no_transaction = false

pub record BlockMetadata : Type 0 where
  pub parents : List Bytes
  pub is_solid : Bool
  pub should_promote : Bool
  pub should_reattach : Bool
  pub referenced_by_milestone_index : ℕ
  pub milestone_index : ℕ
  pub inclusion_state : LedgerInclusionState
  pub conflict_reason : ConflictReason
  pub white_flag_index : ℕ
