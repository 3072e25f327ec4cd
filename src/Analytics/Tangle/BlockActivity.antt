-- ===== src/Analytics/Tangle/BlockActivity.antt =====
-- `BlockActivityMeasurement`: src/analytics/tangle/block_activity.rs.
pub mod Partition
use inx_chronicle.Common.{ℕ}
use inx_chronicle.Common.Words.{wrapping_add}
use inx_chronicle.Model.Block.{Payload, OptionPayload}
use inx_chronicle.Model.Metadata.{LedgerInclusionState}
use inx_chronicle.Tangle.Sources.{BlockData}

pub record BlockActivityMeasurement : Type 0 where
  pub milestone_count : ℕ
  pub no_payload_count : ℕ
  pub tagged_data_count : ℕ
  pub transaction_count : ℕ
  pub treasury_transaction_count : ℕ
  pub confirmed_count : ℕ
  pub conflicting_count : ℕ
  pub no_transaction_count : ℕ

-- `Self::default()`
abbrev pub no_activity : BlockActivityMeasurement
no_activity = record {
  milestone_count = 0;
  no_payload_count = 0;
  tagged_data_count = 0;
  transaction_count = 0;
  treasury_transaction_count = 0;
  confirmed_count = 0;
  conflicting_count = 0;
  no_transaction_count = 0;
}

-- `match block.payload { .. }`
unfoldable pub count_payload : BlockActivityMeasurement → OptionPayload → BlockActivityMeasurement
count_payload m (OptionPayload.with_payload (Payload.milestone p)) = record m {
  milestone_count = wrapping_add m.milestone_count 1;
}
count_payload m (OptionPayload.with_payload (Payload.tagged_data p)) = record m {
  tagged_data_count = wrapping_add m.tagged_data_count 1;
}
count_payload m (OptionPayload.with_payload (Payload.transaction p)) = record m {
  transaction_count = wrapping_add m.transaction_count 1;
}
count_payload m (OptionPayload.with_payload (Payload.treasury_transaction p)) = record m {
  treasury_transaction_count = wrapping_add m.treasury_transaction_count 1;
}
count_payload m OptionPayload.no_payload = record m {
  no_payload_count = wrapping_add m.no_payload_count 1;
}

-- `match metadata.inclusion_state { .. }`
unfoldable pub count_inclusion :
    BlockActivityMeasurement → LedgerInclusionState → BlockActivityMeasurement
count_inclusion m LedgerInclusionState.conflicting = record m {
  conflicting_count = wrapping_add m.conflicting_count 1;
}
count_inclusion m LedgerInclusionState.included = record m {
  confirmed_count = wrapping_add m.confirmed_count 1;
}
count_inclusion m LedgerInclusionState.no_transaction = record m {
  no_transaction_count = wrapping_add m.no_transaction_count 1;
}

unfoldable pub handle_block : BlockActivityMeasurement → BlockData → BlockActivityMeasurement
unfolding count_payload count_inclusion
handle_block m block_data =
    count_inclusion (count_payload m block_data.block.payload) block_data.metadata.inclusion_state
