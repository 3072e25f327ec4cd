-- ===== src/Analytics/Tangle/BlockActivity/Partition.antt =====
-- The counts of a milestone partition its blocks.
use inx_chronicle.Common.{ℕ, ◌+◌, ◌%◌, ◌≡◌, refl, List, [], ◌∷◌, arith, length}
use inx_chronicle.Common.Words.{u64_mod}
use mathlib.Core.List.{foldl}
use inx_chronicle.Model.Block.{Payload, OptionPayload}
use inx_chronicle.Model.Metadata.{LedgerInclusionState}
use inx_chronicle.Tangle.Sources.{BlockData}
use inx_chronicle.Analytics.Tangle.BlockActivity.{
  BlockActivityMeasurement, count_payload, count_inclusion, handle_block,
}

abbrev pub payload_total : BlockActivityMeasurement → ℕ
payload_total m =
    m.milestone_count + m.no_payload_count + m.tagged_data_count + m.transaction_count
    + m.treasury_transaction_count

abbrev pub inclusion_total : BlockActivityMeasurement → ℕ
inclusion_total m = m.confirmed_count + m.conflicting_count + m.no_transaction_count

count_payload-totals :
    (m : BlockActivityMeasurement) (p : OptionPayload)
    → (payload_total (count_payload m p) % u64_mod ≡ (payload_total m + 1) % u64_mod)
      × (inclusion_total (count_payload m p) ≡ inclusion_total m)
unfolding count_payload
count_payload-totals m OptionPayload.no_payload = (omega arith, refl)
count_payload-totals m (OptionPayload.with_payload (Payload.milestone _)) = (omega arith, refl)
count_payload-totals m (OptionPayload.with_payload (Payload.tagged_data _)) = (omega arith, refl)
count_payload-totals m (OptionPayload.with_payload (Payload.transaction _)) = (omega arith, refl)
count_payload-totals m (OptionPayload.with_payload (Payload.treasury_transaction _)) =
    (omega arith, refl)

count_inclusion-totals :
    (m : BlockActivityMeasurement) (s : LedgerInclusionState)
    → (payload_total (count_inclusion m s) ≡ payload_total m)
      × (inclusion_total (count_inclusion m s) % u64_mod ≡ (inclusion_total m + 1) % u64_mod)
unfolding count_inclusion
count_inclusion-totals m LedgerInclusionState.conflicting = (refl, omega arith)
count_inclusion-totals m LedgerInclusionState.included = (refl, omega arith)
count_inclusion-totals m LedgerInclusionState.no_transaction = (refl, omega arith)

-- After any blocks, starting from any measurement, the counts by payload together, and the counts by
-- inclusion state together, have each grown by the number of the blocks, modulo 2^64.
pub handle_block-partition :
    (m : BlockActivityMeasurement) (blocks : List BlockData)
    → (payload_total (foldl handle_block m blocks) % u64_mod
        ≡ (payload_total m + length blocks) % u64_mod)
      × (inclusion_total (foldl handle_block m blocks) % u64_mod
          ≡ (inclusion_total m + length blocks) % u64_mod)
unfolding handle_block
handle_block-partition m [] = (omega arith, omega arith)
handle_block-partition m (b ∷ blocks) =
    let (p, i) = handle_block-partition (handle_block m b) blocks in
    let (p1, i1) = count_payload-totals m b.block.payload in
    let (p2, i2) =
      count_inclusion-totals (count_payload m b.block.payload) b.metadata.inclusion_state in
    (omega (arith, p, p1, p2), omega (arith, i, i1, i2))
