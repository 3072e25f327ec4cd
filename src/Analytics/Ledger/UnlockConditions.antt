-- ===== src/Analytics/Ledger/UnlockConditions.antt =====
-- `UnlockConditionMeasurement`: src/analytics/ledger/unlock_conditions.rs.
pub mod Recompute
use inx_chronicle.Common.{ℕ, Option, none, some, List, if◌then◌else◌}
use inx_chronicle.Common.Words
use mathlib.Core.List.{foldl}
use inx_chronicle.Model.Output.{
  Output, StorageDepositReturnUnlockCondition, TimelockUnlockCondition, ExpirationUnlockCondition,
  is_some,
}
use inx_chronicle.Model.Ledger.{LedgerOutput, LedgerSpent}
use inx_chronicle.Analytics.Counts.{CountAndAmount, no_outputs, add_counts, sub_counts, add_output}
use inx_chronicle.Analytics.Update.{spent_outputs}

pub record UnlockConditionMeasurement : Type 0 where
  pub timelock : CountAndAmount
  pub expiration : CountAndAmount
  pub storage_deposit_return : CountAndAmount
  pub storage_deposit_return_inner_amount : ℕ

abbrev pub no_measurement : UnlockConditionMeasurement
no_measurement = record {
  timelock = no_outputs;
  expiration = no_outputs;
  storage_deposit_return = no_outputs;
  storage_deposit_return_inner_amount = 0;
}

unfoldable pub wrapping_add :
    UnlockConditionMeasurement → UnlockConditionMeasurement → UnlockConditionMeasurement
wrapping_add m rhs = record {
  timelock = add_counts m.timelock rhs.timelock;
  expiration = add_counts m.expiration rhs.expiration;
  storage_deposit_return = add_counts m.storage_deposit_return rhs.storage_deposit_return;
  storage_deposit_return_inner_amount =
      Words.wrapping_add m.storage_deposit_return_inner_amount
        rhs.storage_deposit_return_inner_amount;
}

unfoldable pub wrapping_sub :
    UnlockConditionMeasurement → UnlockConditionMeasurement → UnlockConditionMeasurement
wrapping_sub m rhs = record {
  timelock = sub_counts m.timelock rhs.timelock;
  expiration = sub_counts m.expiration rhs.expiration;
  storage_deposit_return = sub_counts m.storage_deposit_return rhs.storage_deposit_return;
  storage_deposit_return_inner_amount =
      Words.wrapping_sub m.storage_deposit_return_inner_amount
        rhs.storage_deposit_return_inner_amount;
}

-- `if let Some(storage) = ..`
add_storage :
    UnlockConditionMeasurement
    → LedgerOutput
    → Option StorageDepositReturnUnlockCondition
    → UnlockConditionMeasurement
add_storage m output none = m
add_storage m output (some storage) = record m {
  storage_deposit_return = add_output m.storage_deposit_return output;
  storage_deposit_return_inner_amount =
      Words.wrapping_add m.storage_deposit_return_inner_amount storage.amount;
}

-- the three tests, which read the same for basic outputs and for NFTs
add_conditions :
    UnlockConditionMeasurement
    → LedgerOutput
    → Option TimelockUnlockCondition
    → Option ExpirationUnlockCondition
    → Option StorageDepositReturnUnlockCondition
    → UnlockConditionMeasurement
unfolding add_storage
add_conditions m output timelock expiration storage =
    let m1 = if is_some timelock then record m { timelock = add_output m.timelock output } else m in
    let m2 =
      if is_some expiration
      then record m1 { expiration = add_output m1.expiration output }
      else m1 in
    add_storage m2 output storage

-- the body of the loop in `init`
pub add_unlock_conditions : UnlockConditionMeasurement → LedgerOutput → UnlockConditionMeasurement
unfolding add_conditions
add_unlock_conditions m output = elim output.output [
  | Output.alias a ↦ m
  | Output.basic b ↦
      add_conditions m output b.timelock_unlock_condition b.expiration_unlock_condition
        b.storage_deposit_return_unlock_condition
  | Output.nft n ↦
      add_conditions m output n.timelock_unlock_condition n.expiration_unlock_condition
        n.storage_deposit_return_unlock_condition
  | Output.foundry f ↦ m
  | Output.treasury t ↦ m
]

unfoldable pub init : List LedgerOutput → UnlockConditionMeasurement
unfolding add_unlock_conditions
init unspent_outputs = foldl add_unlock_conditions no_measurement unspent_outputs

unfoldable pub handle_transaction :
    UnlockConditionMeasurement → List LedgerSpent → List LedgerOutput → UnlockConditionMeasurement
handle_transaction m consumed created =
    wrapping_sub (wrapping_add m (init created)) (init (spent_outputs consumed))
