-- ===== src/Tangle/MongoDb.antt =====
-- The database as a source of tangle data: src/tangle/sources/mongodb.rs. Errors of the driver are
-- left out. The unpacking of a block is a parameter. The milestone stream is the list of the results for the indexes of the range.
use inx_chronicle.Common.{ℕ, zero, suc, ◌+◌, ◌-◌, ◌%◌, ◌^◌, Option, List, [], ◌∷◌, map, ◌==◌}
use inx_chronicle.Common.Run.{Run, ok, ok_or, or_panic, ◌>>=◌}
use inx_chronicle.Common.Bytes.{Bytes}
use inx_chronicle.Model.Block.{Block}
use inx_chronicle.Model.Metadata.{BlockMetadata}
use inx_chronicle.Db.Collections.{
  BlockDocument, matching, sort_by, MilestoneDocument, ConfigurationUpdateDocument,
  get_node_configuration_for_ledger_index,
}
use inx_chronicle.Db.Documents.{
  ProtocolUpdateDocument, get_milestone, get_protocol_parameters_for_ledger_index,
}
use inx_chronicle.Db.Outputs.{OutputDocument, get_consumed_outputs, get_created_outputs}
use inx_chronicle.Tangle.LedgerUpdates.{LedgerUpdateStore, init}
use inx_chronicle.Tangle.Sources.{MilestoneData, BlockData}

pub data MongoDbInputSourceError : Type 0 where
  missing_milestone missing_node_config missing_protocol_params :
      (index : ℕ) → MongoDbInputSourceError

pub data Bound : Type 0 where
  included excluded : (index : ℕ) → Bound
  unbounded : Bound

-- the first and the last index of a range of `u32` numbers, which wrap around
abbrev pub first_index : Bound → ℕ
first_index (included index) = index
first_index (excluded index) = (index + 1) % 2 ^ 32
first_index unbounded = 0

abbrev pub last_index : Bound → ℕ
last_index (included index) = index
last_index (excluded index) = (index + (2 ^ 32 - 1)) % 2 ^ 32
last_index unbounded = 2 ^ 32 - 1

-- `start..=end`, as a start and a number of indexes
abbrev pub indexes_from : ℕ → ℕ → List ℕ
indexes_from start zero = []
indexes_from start (suc n) = start ∷ indexes_from (suc start) n

module _ {Text : Type 0} where
  -- the `try_join!` for one index: of several errors, that of the query written first
  unfoldable pub milestone_data :
      List MilestoneDocument
      → List ProtocolUpdateDocument
      → List (ConfigurationUpdateDocument Text)
      → ℕ
      → Run MongoDbInputSourceError (MilestoneData Text)
  milestone_data milestones protocol_updates configuration_updates index = do
    milestone ← ok_or (get_milestone milestones index) (missing_milestone index)
    protocol ←
        ok_or (get_protocol_parameters_for_ledger_index protocol_updates index)
          (missing_protocol_params index)
    node ←
        ok_or (get_node_configuration_for_ledger_index configuration_updates index)
          (missing_node_config index)
    ok record {
      milestone_id = milestone.0;
      at = milestone.1;
      payload = milestone.2;
      protocol_params = protocol.parameters;
      node_config = node.config;
    }

  -- `InputSource::milestone_stream`
  unfoldable pub milestone_stream :
      List MilestoneDocument
      → List ProtocolUpdateDocument
      → List (ConfigurationUpdateDocument Text)
      → Bound
      → Bound
      → List (Run MongoDbInputSourceError (MilestoneData Text))
  milestone_stream milestones protocol_updates configuration_updates start end' =
      map (milestone_data milestones protocol_updates configuration_updates)
        (indexes_from (first_index start) (suc (last_index end') - first_index start))

-- `BlockCollection::get_referenced_blocks_in_white_flag_order_stream`: a block whose bytes cannot be
-- unpacked is a panic
unfoldable pub get_referenced_blocks_in_white_flag_order_stream :
    (Bytes → Option Block)
    → List BlockDocument
    → ℕ
    → List (Run MongoDbInputSourceError (Bytes × Block × Bytes × BlockMetadata))
get_referenced_blocks_in_white_flag_order_stream unpack blocks index =
    map (λ d. do block ← or_panic (unpack d.raw); ok (d.block_id, block, d.raw, d.metadata))
      (sort_by (λ d. d.metadata.white_flag_index)
        (matching (λ d. d.metadata.referenced_by_milestone_index == index) blocks))

-- `InputSource::cone_stream`
unfoldable pub cone_stream :
    (Bytes → Option Block) → List BlockDocument → ℕ → List (Run MongoDbInputSourceError BlockData)
cone_stream unpack blocks index =
    map (λ item. do r ← item; ok record { block_id = r.0; block = r.1; raw = r.2; metadata = r.3 })
      (get_referenced_blocks_in_white_flag_order_stream unpack blocks index)

-- `InputSource::ledger_updates`
unfoldable pub ledger_updates : List OutputDocument → ℕ → LedgerUpdateStore
ledger_updates docs index = init (get_consumed_outputs docs index) (get_created_outputs docs index)
