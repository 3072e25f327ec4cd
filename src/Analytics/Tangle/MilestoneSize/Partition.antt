-- ===== src/Analytics/Tangle/MilestoneSize/Partition.antt =====
-- The bytes of a milestone are those of its payloads and those of the blocks without one.
use inx_chronicle.Common.{ℕ, ◌+◌, ◌%◌, ◌≡◌, refl, List, [], ◌∷◌, arith, length}
use inx_chronicle.Common.Words.{u64_mod}
use inx_chronicle.Common.Totals.{total}
use mathlib.Core.List.{foldl}
use inx_chronicle.Model.Block.{Payload, OptionPayload}
use inx_chronicle.Tangle.Sources.{BlockData}
use inx_chronicle.Analytics.Tangle.MilestoneSize.{
  MilestoneSizeMeasurement, add_payload_bytes, handle_block,
}

abbrev pub payload_bytes : MilestoneSizeMeasurement → ℕ
payload_bytes m =
    m.total_milestone_payload_bytes + m.total_tagged_data_payload_bytes
    + m.total_transaction_payload_bytes + m.total_treasury_transaction_payload_bytes

-- the bytes of a block, when it has no payload
abbrev pub bare_length : BlockData → ℕ
bare_length b = elim b.block.payload [
  | OptionPayload.no_payload ↦ length b.raw
  | OptionPayload.with_payload _ ↦ 0
]

abbrev pub raw_length : BlockData → ℕ
raw_length b = length b.raw

add_payload_bytes-total :
    (m : MilestoneSizeMeasurement) (len : ℕ) (p : OptionPayload)
    → ((payload_bytes (add_payload_bytes m len p)
            + elim p [ OptionPayload.no_payload ↦ len | OptionPayload.with_payload _ ↦ 0 ])
          % u64_mod
        ≡ (payload_bytes m + len) % u64_mod)
      × ((add_payload_bytes m len p).total_milestone_bytes ≡ m.total_milestone_bytes)
unfolding add_payload_bytes
add_payload_bytes-total m len OptionPayload.no_payload = (omega arith, refl)
add_payload_bytes-total m len (OptionPayload.with_payload (Payload.milestone _)) =
    (omega arith, refl)
add_payload_bytes-total m len (OptionPayload.with_payload (Payload.tagged_data _)) =
    (omega arith, refl)
add_payload_bytes-total m len (OptionPayload.with_payload (Payload.transaction _)) =
    (omega arith, refl)
add_payload_bytes-total m len (OptionPayload.with_payload (Payload.treasury_transaction _)) =
    (omega arith, refl)

-- After any blocks, starting from any measurement, the bytes of the milestone have grown by the sizes
-- of all blocks, and the bytes by payload together by the sizes of the blocks that have a payload,
-- modulo 2^64.
pub handle_block-bytes :
    (m : MilestoneSizeMeasurement) (blocks : List BlockData)
    → ((foldl handle_block m blocks).total_milestone_bytes % u64_mod
        ≡ (m.total_milestone_bytes + total raw_length blocks) % u64_mod)
      × ((payload_bytes (foldl handle_block m blocks) + total bare_length blocks) % u64_mod
          ≡ (payload_bytes m + total raw_length blocks) % u64_mod)
unfolding handle_block
handle_block-bytes m [] = (omega arith, omega arith)
handle_block-bytes m (b ∷ blocks) =
    let (t, p) = handle_block-bytes (handle_block m b) blocks in
    let start = record m {
      total_milestone_bytes = (m.total_milestone_bytes + length b.raw) % u64_mod;
    } in
    let (p1, t1) = add_payload_bytes-total start (length b.raw) b.block.payload in
    (omega (arith, t, t1), omega (arith, p, p1))
