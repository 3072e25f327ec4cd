-- ===== src/Analytics/Milestone.antt =====
-- How analytics are driven by a milestone: `Analytics`, `Milestone::handle_block` and
-- `Milestone::update_analytics` of src/analytics/mod.rs. The measurement that is taken is the
-- result; that it is sent to InfluxDB is left out.
pub mod Dispatch
pub mod Resolve
pub mod Missing
use inx_chronicle.Common.{
  ℕ, zero, suc, ◌+◌, ◌%◌, ◌^◌, Option, none, some, List, [], ◌∷◌, if◌then◌else◌,
}
use inx_chronicle.Common.Bytes.{Bytes}
use inx_chronicle.Common.Run.{Run, ok, err, panic, ok_or, or_panic, map_err, ◌>>=◌}
use inx_chronicle.Model.Address.{OutputId}
use inx_chronicle.Model.Output.{Output}
use inx_chronicle.Model.Block.{
  Block, Input, Payload, TransactionPayload, transaction_payload, TransactionEssence, OptionPayload,
}
use inx_chronicle.Model.Metadata.{is_included}
use inx_chronicle.Model.Milestone.{MilestoneIndexTimestamp}
use inx_chronicle.Model.Protocol.{ProtocolParameters}
use inx_chronicle.Model.Ledger.{LedgerOutput, LedgerSpent}
use inx_chronicle.Tangle.LedgerUpdates.{LedgerUpdateStore, get_created, get_consumed}
use inx_chronicle.Tangle.Sources.{Milestone, BlockData, cone_stream}

-- The first field stands for the id in the message, which is the id in hexadecimal.
pub data AnalyticsError : Type 0 where
  missing_ledger_output missing_ledger_spent :
      (output_id : OutputId) (milestone_index : ℕ) → AnalyticsError

-- `eyre::Report`: an error of the analytics, or one of the source
pub data Report (E : Type 0) : Type 0 where
  analytics_error : AnalyticsError → Report E
  source_error : E → Report E

pub record AnalyticsContext : Type 0 where
  pub protocol_params : ProtocolParameters
  pub at : MilestoneIndexTimestamp

-- `trait Analytics`: a method can panic, which is `none`, and has no other way to fail
pub record Analytics (S M : Type 0) : Type 0 where
  pub handle_transaction : S → List LedgerSpent → List LedgerOutput → AnalyticsContext → Option S
  pub handle_block : S → BlockData → AnalyticsContext → Option S
  pub take_measurement : S → AnalyticsContext → M × S

-- `inputs.iter().filter_map(..)`
abbrev pub utxo_ids : List Input → List OutputId
utxo_ids [] = []
utxo_ids (Input.utxo output_id ∷ inputs) = output_id ∷ utxo_ids inputs
utxo_ids (Input.treasury m ∷ inputs) = utxo_ids inputs

-- `self.ledger_updates().get_consumed(output_id).ok_or(..)` for each of them, up to the first error
abbrev pub collect_consumed :
    {E : Type 0} → LedgerUpdateStore → ℕ → List OutputId → Run (Report E) (List LedgerSpent)
collect_consumed store milestone_index [] = ok []
collect_consumed store milestone_index (output_id ∷ ids) = do
  found ← get_consumed store output_id
  spent ← ok_or found (analytics_error (missing_ledger_spent output_id milestone_index))
  rest ← collect_consumed store milestone_index ids
  ok (spent ∷ rest)

-- `(payload.transaction_id, index as _).into()`: the index is cut to a `u16`
abbrev pub nth_output_id : Bytes → ℕ → OutputId
nth_output_id transaction_id index = record {
  transaction_id = transaction_id;
  index = index % (2 ^ 16);
}

-- the same for the outputs, which are known by their position, from `index` on
abbrev pub collect_created :
    {E : Type 0}
    → LedgerUpdateStore
    → ℕ
    → Bytes
    → ℕ
    → List Output
    → Run (Report E) (List LedgerOutput)
collect_created store milestone_index transaction_id index [] = ok []
collect_created store milestone_index transaction_id index (o ∷ outputs) = do
  found ← get_created store (nth_output_id transaction_id index)
  output ←
      ok_or found (
        analytics_error
          (missing_ledger_output (nth_output_id transaction_id index) milestone_index))
  rest ← collect_created store milestone_index transaction_id (index + 1) outputs
  ok (output ∷ rest)

-- what an included transaction consumed and created, from the ledger updates
unfoldable pub resolve :
    {E : Type 0}
    → LedgerUpdateStore
    → ℕ
    → TransactionPayload
    → Run (Report E) (List LedgerSpent × List LedgerOutput)
resolve store milestone_index (transaction_payload transaction_id essence unlocks) = elim essence [
  | TransactionEssence.regular network_id inputs inputs_commitment outputs _ ↦ (do
    consumed ← collect_consumed store milestone_index (utxo_ids inputs)
    created ← collect_created store milestone_index transaction_id 0 outputs
    ok (consumed, created))
]

-- the transaction of a block whose metadata say that it is included
unfoldable pub included_transaction : BlockData → Option TransactionPayload
included_transaction block_data =
    if is_included block_data.metadata.inclusion_state
    then elim block_data.block.payload [
      | OptionPayload.with_payload (Payload.transaction t) ↦ some t
      | _ ↦ none
    ]
    else none

unfoldable pub context : {Text E Range : Type 0} → Milestone Text E Range → AnalyticsContext
context m = record { protocol_params = m.protocol_params; at = m.at }

module _ {Text E Range S M : Type 0} where
  -- the part of `handle_block` under the two conditions
  abbrev pub apply_transaction :
      Analytics S M → Milestone Text E Range → S → ℕ → Option TransactionPayload → Run (Report E) S
  apply_transaction analytics m s milestone_index none = ok s
  apply_transaction analytics m s milestone_index (some t) = do
    (consumed, created) ← resolve m.ledger_updates milestone_index t
    or_panic (analytics.handle_transaction s consumed created (context m))

  unfoldable pub handle_block :
      Analytics S M → Milestone Text E Range → S → BlockData → Run (Report E) S
  handle_block analytics m s block_data = do
    s' ←
        apply_transaction analytics m s block_data.metadata.referenced_by_milestone_index
          (included_transaction block_data)
    or_panic (analytics.handle_block s' block_data (context m))

  -- `while let Some(block_data) = cone_stream.try_next().await? { .. }`
  abbrev pub handle_cone :
      Analytics S M → Milestone Text E Range → S → List (Run E BlockData) → Run (Report E) S
  handle_cone analytics m s [] = ok s
  handle_cone analytics m s (next ∷ stream) = do
    block_data ← map_err source_error next
    s' ← handle_block analytics m s block_data
    handle_cone analytics m s' stream

  unfoldable pub update_analytics :
      Analytics S M → Milestone Text E Range → S → Run (Report E) (M × S)
  update_analytics analytics m s = do
    stream ← map_err source_error (cone_stream m)
    s' ← handle_cone analytics m s stream
    ok (analytics.take_measurement s' (context m))
