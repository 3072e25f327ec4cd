-- ===== src/Tests/Milestone.antt =====
-- A milestone with one transaction, from its ledger updates to its measurements.
use inx_chronicle.Common.{
  inl, ℕ, ◌+◌, ◌%◌, ◌≡◌, refl, true, false, some, List, [], ◌∷◌, map, arith, length,
}
use inx_chronicle.Common.Bytes.{Bytes}
use inx_chronicle.Common.Words.{u64_mod}
use inx_chronicle.Common.Totals.{total}
use inx_chronicle.Common.Run.{ok, err}
use mathlib.Core.List.{foldl}
use inx_chronicle.Model.Block.{
  Input, Payload, TransactionPayload, transaction_payload, TransactionEssence, OptionPayload,
}
use inx_chronicle.Model.Metadata.{ConflictReason, LedgerInclusionState}
use inx_chronicle.Model.Milestone.{MilestonePayload}
use inx_chronicle.Db.Collections.{NodeConfiguration}
use inx_chronicle.Tangle.LedgerUpdates
use inx_chronicle.Tangle.LedgerUpdates.{
  LedgerUpdateStore, get_consumed, get_created, spent_id, created_id,
}
use inx_chronicle.Tangle.LedgerUpdates.Retrieve.{last_with, get_init}
use inx_chronicle.Tangle.Sources.{InputSource, Milestone, BlockData, cone_stream}
use inx_chronicle.Tangle.MongoDb.{included}
use inx_chronicle.Tangle.Inx.{LedgerUpdateMessage, ledger_updates}
use inx_chronicle.Tangle.Inx.Read.{consumed_items, ledger_updates-short}
use inx_chronicle.Analytics.Milestone.{included_transaction, resolve, update_analytics, utxo_ids}
use inx_chronicle.Analytics.Milestone.{handle_block, analytics_error, missing_ledger_spent}
use inx_chronicle.Analytics.Milestone.Missing.{handle_block_missing}
use inx_chronicle.Analytics.Milestone.Resolve.{created_ids, resolve-ids}
use inx_chronicle.Analytics.Milestone.Dispatch.{Evolves, Spends, Makes}
use inx_chronicle.Analytics.Choices.{
  ledger_outputs, unlock_conditions, ledger_size, update_analytics-init,
}
use inx_chronicle.Analytics.Ledger.LedgerSize
use inx_chronicle.Analytics.Ledger.UnlockConditions
use inx_chronicle.Analytics.Ledger.LedgerOutputs
use inx_chronicle.Analytics.Tangle.BlockActivity
use inx_chronicle.Analytics.Tangle.BlockActivity.{no_activity}
use inx_chronicle.Analytics.Tangle.BlockActivity.Partition.{
  payload_total, inclusion_total, handle_block-partition,
}
use inx_chronicle.Analytics.Tangle.MilestoneSize
use inx_chronicle.Analytics.Tangle.MilestoneSize.{MilestoneSizeMeasurement}
use inx_chronicle.Analytics.Tangle.MilestoneSize.Partition.{
  payload_bytes, bare_length, raw_length, handle_block-bytes,
}
use inx_chronicle.Tests.Ledger.{output_for, spent, new, before, after, updated, params, size}

-- the transaction that spends the second output
abbrev transaction : TransactionPayload
transaction =
    transaction_payload (3 ∷ [])
      (TransactionEssence.regular 1 (Input.utxo record { transaction_id = 2 ∷ []; index = 0 } ∷ [])
        [] (output_for 1 70 ∷ []) OptionPayload.no_payload)
      []

abbrev block_data : OptionPayload → LedgerInclusionState → BlockData
block_data payload state = record {
  block_id = [];
  block = record { protocol_version = 2; parents = []; payload = payload; nonce = 0 };
  raw = 1 ∷ 2 ∷ 3 ∷ [];
  metadata = record {
    parents = [];
    is_solid = true;
    should_promote = false;
    should_reattach = false;
    referenced_by_milestone_index = 5;
    milestone_index = 0;
    inclusion_state = state;
    conflict_reason = ConflictReason.no_conflict;
    white_flag_index = 0;
  };
}

abbrev spending : BlockData
spending =
    block_data (OptionPayload.with_payload (Payload.transaction transaction))
      LedgerInclusionState.included

abbrev conflicting : BlockData
conflicting =
    block_data (OptionPayload.with_payload (Payload.transaction transaction))
      LedgerInclusionState.conflicting

abbrev bare : BlockData
bare = block_data OptionPayload.no_payload LedgerInclusionState.no_transaction

abbrev cone : List BlockData
cone = bare ∷ spending ∷ conflicting ∷ []

abbrev store : LedgerUpdateStore
store = LedgerUpdates.init (spent ∷ []) (new ∷ [])

-- a source with this milestone alone, and numbers for errors
abbrev source : InputSource Bytes ℕ ℕ
source = record {
  milestone_stream = λ r. ok [];
  cone_stream = λ i. ok (map ok cone);
  ledger_updates = λ i. ok store;
}

abbrev payload : MilestonePayload
payload = record {
  essence = record {
    index = 5;
    timestamp = 100;
    protocol_version = 2;
    previous_milestone_id = [];
    parents = [];
    inclusion_merkle_root = [];
    applied_merkle_root = [];
    metadata = [];
    options = [];
  };
  signatures = [];
}

abbrev node_config : NodeConfiguration Bytes
node_config = record {
  milestone_public_key_count = 0;
  milestone_key_ranges = [];
  base_token = record {
    name = [];
    ticker_symbol = [];
    unit = [];
    subunit = [];
    decimals = 6;
    use_metric_prefix = false;
  };
}

abbrev milestone : Milestone Bytes ℕ ℕ
milestone = record {
  source = source;
  milestone_id = [];
  at = record { milestone_index = 5; milestone_timestamp = 100 };
  payload = payload;
  protocol_params = params;
  node_config = node_config;
  ledger_updates = store;
}

arrives : cone_stream milestone ≡ ok (map ok cone)
unfolding cone_stream
arrives = refl

resolved : resolve {E = ℕ} store 5 transaction ≡ ok (spent ∷ [], new ∷ [])
unfolding resolve get_consumed LedgerUpdates.init get_created
resolved = refl

takes_spending : included_transaction spending ≡ some transaction
unfolding included_transaction
takes_spending = refl

spends : Spends (spent ∷ []) (Input.utxo (spent_id spent) ∷ []) (spent ∷ [])
spends = Spends.output (spent_id spent) [] spent [] refl Spends.nothing

makes : Makes (new ∷ []) (3 ∷ []) 0 (output_for 1 70 ∷ []) (new ∷ [])
makes = Makes.output 0 (output_for 1 70) [] new [] (omega arith) refl (Makes.nothing 1)

evolves : Evolves (spent ∷ []) (new ∷ []) before cone after
evolves = Evolves.skip before after bare (spending ∷ conflicting ∷ []) (inl (λ h. cc)) (
    Evolves.apply before after after spending (conflicting ∷ []) (3 ∷ []) 1
      (Input.utxo (spent_id spent) ∷ []) [] (output_for 1 70 ∷ []) OptionPayload.no_payload []
      (spent ∷ []) (new ∷ []) refl refl spends makes updated
      (Evolves.skip after after conflicting [] (inl (λ h. cc)) (Evolves.done after)))

update_analytics-init_example :
    (update_analytics ledger_outputs milestone (LedgerOutputs.init before)
      ≡ ok (LedgerOutputs.init after, LedgerOutputs.init after))
    × (update_analytics unlock_conditions milestone (UnlockConditions.init before)
        ≡ ok (UnlockConditions.init after, UnlockConditions.init after))
    × (update_analytics (ledger_size size) milestone (LedgerSize.init size params before)
        ≡ ok ((LedgerSize.init size params after).measurement, LedgerSize.init size params after))
update_analytics-init_example =
    update_analytics-init size params milestone (spent ∷ []) (new ∷ []) before after cone refl
      arrives evolves

get_init_example :
    (get_consumed {E = ℕ} store (spent_id spent)
      ≡ ok (last_with spent_id (spent_id spent) (spent ∷ [])))
    × (get_created {E = ℕ} store (spent_id spent)
        ≡ ok (last_with created_id (spent_id spent) (new ∷ [])))
get_init_example = get_init {E = ℕ} (spent ∷ []) (new ∷ []) (spent_id spent)

resolve-ids_example :
    (map spent_id (spent ∷ [])
      ≡ utxo_ids (Input.utxo record { transaction_id = 2 ∷ []; index = 0 } ∷ []))
    × (map created_id (new ∷ []) ≡ created_ids (3 ∷ []) 0 (output_for 1 70 ∷ []))
resolve-ids_example =
    resolve-ids {E = ℕ} (spent ∷ []) (new ∷ []) 5 (3 ∷ []) 1
      (Input.utxo record { transaction_id = 2 ∷ []; index = 0 } ∷ []) [] (output_for 1 70 ∷ [])
      OptionPayload.no_payload [] (spent ∷ []) (new ∷ []) resolved

ledger_updates-short_example :
    ledger_updates {E = ℕ} (
      ok (
        LedgerUpdateMessage.begin
          record { milestone_index = 5; consumed_count = 4; created_count = 1 })
      ∷ consumed_items (spent ∷ []))
    ≡ ok (LedgerUpdates.init (spent ∷ []) [])
ledger_updates-short_example =
    ledger_updates-short {E = ℕ}
      record { milestone_index = 5; consumed_count = 4; created_count = 1 } (spent ∷ [])
      (omega arith)

handle_block-partition_example :
    (payload_total (foldl BlockActivity.handle_block no_activity cone) % u64_mod
      ≡ (payload_total no_activity + length cone) % u64_mod)
    × (inclusion_total (foldl BlockActivity.handle_block no_activity cone) % u64_mod
        ≡ (inclusion_total no_activity + length cone) % u64_mod)
handle_block-partition_example = handle_block-partition no_activity cone

abbrev no_bytes : MilestoneSizeMeasurement
no_bytes = record {
  total_milestone_payload_bytes = 0;
  total_tagged_data_payload_bytes = 0;
  total_transaction_payload_bytes = 0;
  total_treasury_transaction_payload_bytes = 0;
  total_milestone_bytes = 0;
}

handle_block-bytes_example :
    ((foldl MilestoneSize.handle_block no_bytes cone).total_milestone_bytes % u64_mod
      ≡ (no_bytes.total_milestone_bytes + total raw_length cone) % u64_mod)
    × ((payload_bytes (foldl MilestoneSize.handle_block no_bytes cone) + total bare_length cone)
          % u64_mod
        ≡ (payload_bytes no_bytes + total raw_length cone) % u64_mod)
handle_block-bytes_example = handle_block-bytes no_bytes cone

-- the store of a milestone that consumed nothing
abbrev incomplete : Milestone Bytes ℕ ℕ
incomplete = record milestone { ledger_updates = LedgerUpdates.init [] (new ∷ []) }

handle_block_missing_example :
    handle_block ledger_outputs incomplete (LedgerOutputs.init before) spending
    ≡ err (analytics_error (missing_ledger_spent record { transaction_id = 2 ∷ []; index = 0 } 5))
handle_block_missing_example =
    handle_block_missing ledger_outputs incomplete (LedgerOutputs.init before) spending []
      (new ∷ []) (3 ∷ []) 1 (Input.utxo record { transaction_id = 2 ∷ []; index = 0 } ∷ []) []
      (output_for 1 70 ∷ []) OptionPayload.no_payload [] []
      record { transaction_id = 2 ∷ []; index = 0 } [] refl takes_spending refl tt refl
