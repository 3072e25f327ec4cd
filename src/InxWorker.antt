-- ===== src/InxWorker.antt =====
-- The synchronisation with a node: `InxWorker` of src/bin/inx-chronicle/inx/mod.rs, from the answers
-- of the node on. These are parameters: its status, its protocol parameters, the stream of its
-- unspent outputs and that of its milestones; an error of them is of the type `E`. The tasks that
-- write the outputs are taken in the order in which they are spawned; Db/Outputs/Tasks is about
-- other orders. When the cone stream ends with an
-- error, the tasks that still run are aborted: which of the blocks read before are written then is
-- a parameter. Measurements for InfluxDB are left out.
pub mod FirstRun
pub mod Checkpoint
pub mod RoundTrip
pub mod Contiguous
use Prim.Native.String.{String}
use inx_chronicle.Common.{
  ℕ, zero, suc, ◌+◌, Bool, true, false, not, ◌&&◌, ◌||◌, Option, none, some, List, [], ◌∷◌, ◌++◌,
  filter_map, if◌then◌else◌, ◌==◌, ltb, leb,
}
use inx_chronicle.Common.Bytes.{Bytes}
use inx_chronicle.Common.Run.{Run, ok, err, panic, Done, done, ◌>>=◌, map_err}
use inx_chronicle.Model.Block.{Block, Payload, OptionPayload}
use inx_chronicle.Model.Metadata.{is_included}
use inx_chronicle.Model.Ledger.{LedgerOutput, LedgerSpent}
use inx_chronicle.Model.Milestone.{MilestoneIndexTimestamp}
use inx_chronicle.Model.Protocol.{ProtocolParameters}
use inx_chronicle.Db.ApplicationState.{
  MigrationVersion, ApplicationStateDocument, set_starting_index, set_last_migration,
}
use inx_chronicle.Db.Collections.{
  BlockDocument, MilestoneDocument, NodeConfiguration, ConfigurationUpdateDocument,
}
use inx_chronicle.Db.Outputs.{OutputDocument, insert_unspent_outputs, update_spent_outputs}
use inx_chronicle.Db.Documents.{
  LedgerUpdateDocument, TreasuryDocument, ProtocolUpdateDocument, insert_spent_ledger_updates,
  insert_unspent_ledger_updates, insert_treasury_payloads, insert_blocks_with_metadata,
  upsert_protocol_parameters, upsert_node_configuration, get_newest_milestone,
  get_latest_protocol_parameters, insert_milestone,
}
use inx_chronicle.Tangle.LedgerUpdates.{LedgerUpdateStore}
use inx_chronicle.Tangle.Sources.{BlockData, Milestone, cone_stream}

pub data InxWorkerError (E : Type 0) : Type 0 where
  invalid_unspent_output_index : (found expected : ℕ) → InxWorkerError E
  network_changed : (old new : String) → InxWorkerError E
  sync_milestone_gap : (start gap_end : ℕ) → InxWorkerError E
  sync_milestone_index_mismatch : (node db : ℕ) → InxWorkerError E
  source_error : E → InxWorkerError E
  duplicate_key : InxWorkerError E

-- the collections that the worker reads and writes
pub record Store (Text Date : Type 0) : Type 0 where
  pub application_state : List (ApplicationStateDocument Date)
  pub outputs : List OutputDocument
  pub ledger_updates : List LedgerUpdateDocument
  pub blocks : List BlockDocument
  pub treasury : List TreasuryDocument
  pub protocol_updates : List ProtocolUpdateDocument
  pub configuration_updates : List (ConfigurationUpdateDocument Text)
  pub milestones : List MilestoneDocument

-- the fields of `NodeStatusMessage` that are used
pub record NodeStatus : Type 0 where
  pub confirmed_milestone_index : ℕ
  pub tangle_pruning_index : ℕ

abbrev pub max : ℕ → ℕ → ℕ
max a b = if ltb a b then b else a

-- the start index that `init` finds; an index is a `u32`, and is taken to be below the largest
abbrev pub start_after :
    {E : Type 0} → Option MilestoneIndexTimestamp → ℕ → NodeStatus → Run (InxWorkerError E) ℕ
start_after none sync_start_milestone status =
    ok (max sync_start_milestone (status.tangle_pruning_index + 1))
start_after (some latest) sync_start_milestone status =
    if ltb latest.milestone_index status.tangle_pruning_index
    then err (sync_milestone_gap (latest.milestone_index + 1) status.tangle_pruning_index)
    else if ltb status.confirmed_milestone_index latest.milestone_index
    then err (sync_milestone_index_mismatch status.confirmed_milestone_index latest.milestone_index)
    else ok (latest.milestone_index + 1)

unfoldable pub start_index :
    {E : Type 0} → List MilestoneDocument → ℕ → NodeStatus → Run (InxWorkerError E) ℕ
start_index milestones sync_start_milestone status =
    start_after (get_newest_milestone milestones) sync_start_milestone status

-- the treasury payload that `handle_cone_stream` takes of an included block
abbrev pub treasury_of : BlockData → OptionPayload → Option TreasuryDocument
treasury_of b (OptionPayload.with_payload (Payload.treasury_transaction p)) =
    if is_included b.metadata.inclusion_state
    then some record {
      milestone_index = b.metadata.referenced_by_milestone_index;
      milestone_id = p.input_milestone_id;
      amount = p.output_amount;
    }
    else none
treasury_of b _ = none

abbrev pub treasury_payload : BlockData → Option TreasuryDocument
treasury_payload b = treasury_of b b.block.payload

-- what a stream yields before its first error, and the error
abbrev pub until_error {ℓ} : {E : Type 0} {A : Type ℓ} → List (Run E A) → List A × Run E Done
until_error [] = ([], ok done)
until_error (ok a ∷ stream) = let (items, end') = until_error stream in (a ∷ items, end')
until_error (err e ∷ stream) = ([], err e)
until_error (panic ∷ stream) = ([], panic)

-- the document that `insert_milestone` makes
abbrev pub milestone_document : {Text E Range : Type 0} → Milestone Text E Range → MilestoneDocument
milestone_document m = record { milestone_id = m.milestone_id; at = m.at; payload = m.payload }

module _ {Text Date : Type 0} where
  -- `insert_unspent_outputs` and `update_spent_outputs` of this file, for all batches
  unfoldable pub write_created :
      (Bytes → Bytes) → List LedgerOutput → Store Text Date → Store Text Date
  write_created digest created store = record store {
    outputs = insert_unspent_outputs digest created store.outputs;
    ledger_updates = insert_unspent_ledger_updates created store.ledger_updates;
  }

  unfoldable pub write_consumed :
      (Bytes → Bytes) → List LedgerSpent → Store Text Date → Store Text Date
  write_consumed digest consumed store = record store {
    outputs = update_spent_outputs digest consumed store.outputs;
    ledger_updates = insert_spent_ledger_updates consumed store.ledger_updates;
  }

  -- the tasks of `handle_cone_stream`, for all batches
  unfoldable pub write_blocks : List BlockData → Store Text Date → Store Text Date
  write_blocks blocks store = record store {
    treasury = insert_treasury_payloads (filter_map treasury_payload blocks) store.treasury;
    blocks = insert_blocks_with_metadata blocks store.blocks;
  }

  -- a step that runs only after the one before has returned
  abbrev pub then_step :
      {E : Type 0}
      → (Store Text Date → Store Text Date × Run (InxWorkerError E) Done)
      → Store Text Date × Run (InxWorkerError E) Done
      → Store Text Date × Run (InxWorkerError E) Done
  then_step step (store, ok _) = step store
  then_step step (store, err e) = (store, err e)
  then_step step (store, panic) = (store, panic)

  abbrev pub recorded :
      {E : Type 0}
      → Store Text Date
      → Option (List MilestoneDocument)
      → Store Text Date × Run (InxWorkerError E) Done
  recorded store (some milestones) = (record store { milestones = milestones }, ok done)
  recorded store none = (store, err duplicate_key)

  module _ {E : Type 0} (aborted : List BlockData → List BlockData) where
    abbrev pub cone_result :
        List BlockData × Run E Done
        → Store Text Date
        → Store Text Date × Run (InxWorkerError E) Done
    cone_result (blocks, ok _) store = (write_blocks blocks store, ok done)
    cone_result (blocks, err e) store = (write_blocks (aborted blocks) store, err (source_error e))
    cone_result (blocks, panic) store = (write_blocks (aborted blocks) store, panic)

    abbrev pub cone_opened :
        Run E (List (Run E BlockData))
        → Store Text Date
        → Store Text Date × Run (InxWorkerError E) Done
    cone_opened (ok stream) store = cone_result (until_error stream) store
    cone_opened (err e) store = (store, err (source_error e))
    cone_opened panic store = (store, panic)

    -- `InxWorker::handle_cone_stream`
    unfoldable pub handle_cone_stream :
        {Range : Type 0}
        → Milestone Text E Range
        → Store Text Date
        → Store Text Date × Run (InxWorkerError E) Done
    handle_cone_stream milestone store = cone_opened (cone_stream milestone) store

    module _ {Range : Type 0} (digest : Bytes → Bytes)
        (same_parameters : ProtocolParameters → ProtocolParameters → Bool)
        (same_config : NodeConfiguration Text → NodeConfiguration Text → Bool) where
      -- the part of `handle_ledger_update` after the cone: both updates, then the checkpoint
      unfoldable pub finish_update :
          Milestone Text E Range → Store Text Date → Store Text Date × Run (InxWorkerError E) Done
      finish_update m store =
          let updated = record store {
            protocol_updates =
                upsert_protocol_parameters same_parameters m.at.milestone_index m.protocol_params
                  store.protocol_updates;
            configuration_updates =
                upsert_node_configuration same_config m.at.milestone_index m.node_config
                  store.configuration_updates;
          } in
          recorded updated (insert_milestone (milestone_document m) updated.milestones)

      -- `InxWorker::handle_ledger_update`
      unfoldable pub handle_ledger_update :
          Milestone Text E Range → Store Text Date → Store Text Date × Run (InxWorkerError E) Done
      handle_ledger_update m store =
          let written =
            write_consumed digest m.ledger_updates.consumed
              (write_created digest m.ledger_updates.created store) in
          then_step (finish_update m) (handle_cone_stream m written)

      -- the loop of `InxWorker::run` over the milestone stream
      unfoldable pub run_stream :
          List (Run E (Milestone Text E Range))
          → Store Text Date
          → Store Text Date × Run (InxWorkerError E) Done
      run_stream [] store = (store, ok done)
      run_stream (ok m ∷ stream) store =
          then_step (run_stream stream) (handle_ledger_update m store)
      run_stream (err e ∷ stream) store = (store, err (source_error e))
      run_stream (panic ∷ stream) store = (store, panic)
