-- ===== src/Analytics/Tangle/MilestoneSize.antt =====
-- `MilestoneSizeMeasurement`: src/analytics/tangle/milestone_size.rs.
pub mod Partition
use inx_chronicle.Common.{ℕ, length}
use inx_chronicle.Common.Words.{wrapping_add}
use inx_chronicle.Model.Block.{Payload, OptionPayload}
use inx_chronicle.Tangle.Sources.{BlockData}

pub record MilestoneSizeMeasurement : Type 0 where
  pub total_milestone_payload_bytes : ℕ
  pub total_tagged_data_payload_bytes : ℕ
  pub total_transaction_payload_bytes : ℕ
  pub total_treasury_transaction_payload_bytes : ℕ
  pub total_milestone_bytes : ℕ

-- `match block.payload { .. }`, where `len` is `raw.len()`
unfoldable pub add_payload_bytes :
    MilestoneSizeMeasurement → ℕ → OptionPayload → MilestoneSizeMeasurement
add_payload_bytes m len (OptionPayload.with_payload (Payload.milestone p)) = record m {
  total_milestone_payload_bytes = wrapping_add m.total_milestone_payload_bytes len;
}
add_payload_bytes m len (OptionPayload.with_payload (Payload.tagged_data p)) = record m {
  total_tagged_data_payload_bytes = wrapping_add m.total_tagged_data_payload_bytes len;
}
add_payload_bytes m len (OptionPayload.with_payload (Payload.transaction p)) = record m {
  total_transaction_payload_bytes = wrapping_add m.total_transaction_payload_bytes len;
}
add_payload_bytes m len (OptionPayload.with_payload (Payload.treasury_transaction p)) = record m {
  total_treasury_transaction_payload_bytes =
      wrapping_add m.total_treasury_transaction_payload_bytes len;
}
add_payload_bytes m len OptionPayload.no_payload = m

unfoldable pub handle_block : MilestoneSizeMeasurement → BlockData → MilestoneSizeMeasurement
unfolding add_payload_bytes
handle_block m block_data =
    let len = length block_data.raw in
    add_payload_bytes
      (record m { total_milestone_bytes = wrapping_add m.total_milestone_bytes len }) len
      block_data.block.payload
