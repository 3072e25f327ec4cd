-- ===== src/Analytics/Choices.antt =====
-- The analytics that are initialised from the ledger, as `Milestone::update_analytics` drives them:
-- the `Analytics` implementations of src/analytics/ledger.
use inx_chronicle.Common.{◌≡◌, refl, ap, some, List, map}
use inx_chronicle.Common.Run.{ok}
use inx_chronicle.Model.Ledger.{LedgerOutput, LedgerSpent}
use inx_chronicle.Tangle.LedgerUpdates.{init}
use inx_chronicle.Tangle.Sources.{Milestone, BlockData, cone_stream}
use inx_chronicle.Model.Output.{Output}
use inx_chronicle.Model.Protocol.{ProtocolParameters}
use inx_chronicle.Analytics.Milestone.{Analytics, update_analytics}
use inx_chronicle.Analytics.Milestone.Dispatch.{Tracks, Evolves, update_analytics-Tracks}
use inx_chronicle.Analytics.Ledger.LedgerOutputs
use inx_chronicle.Analytics.Ledger.LedgerOutputs.{LedgerOutputMeasurement}
use inx_chronicle.Analytics.Ledger.LedgerOutputs.Recompute.{handle_transaction-init}
use inx_chronicle.Analytics.Ledger.UnlockConditions
use inx_chronicle.Analytics.Ledger.UnlockConditions.{UnlockConditionMeasurement}
use inx_chronicle.Analytics.Ledger.UnlockConditions.Recompute.{handle_unlocks-init}
use inx_chronicle.Analytics.Ledger.LedgerSize
use inx_chronicle.Analytics.Ledger.LedgerSize.{LedgerSizeMeasurement, LedgerSizeAnalytics}
use inx_chronicle.Analytics.Ledger.LedgerSize.Recompute.{handle_sizes-init}

abbrev pub ledger_outputs : Analytics LedgerOutputMeasurement LedgerOutputMeasurement
ledger_outputs = record {
  handle_transaction =
      λ s consumed created ctx. some (LedgerOutputs.handle_transaction s consumed created);
  handle_block = λ s b ctx. some s;
  take_measurement = λ s ctx. (s, s);
}

abbrev pub unlock_conditions : Analytics UnlockConditionMeasurement UnlockConditionMeasurement
unlock_conditions = record {
  handle_transaction =
      λ s consumed created ctx. some (UnlockConditions.handle_transaction s consumed created);
  handle_block = λ s b ctx. some s;
  take_measurement = λ s ctx. (s, s);
}

abbrev pub ledger_size :
    (ProtocolParameters → Output → LedgerSizeMeasurement)
    → Analytics LedgerSizeAnalytics LedgerSizeMeasurement
ledger_size size = record {
  handle_transaction =
      λ s consumed created ctx. some (LedgerSize.handle_transaction size s consumed created);
  handle_block = λ s b ctx. some s;
  take_measurement = λ s ctx. (s.measurement, s);
}

ledger_outputs-Tracks : Tracks ledger_outputs LedgerOutputs.init
ledger_outputs-Tracks = record {
  follows = λ unspent consumed created unspent' ctx u.
      ap some (handle_transaction-init unspent consumed created unspent' u);
  ignores = λ s b ctx. refl;
}

unlock_conditions-Tracks : Tracks unlock_conditions UnlockConditions.init
unlock_conditions-Tracks = record {
  follows = λ unspent consumed created unspent' ctx u.
      ap some (handle_unlocks-init unspent consumed created unspent' u);
  ignores = λ s b ctx. refl;
}

ledger_size-Tracks :
    (size : ProtocolParameters → Output → LedgerSizeMeasurement) (params : ProtocolParameters)
    → Tracks (ledger_size size) (LedgerSize.init size params)
ledger_size-Tracks size params = record {
  follows = λ unspent consumed created unspent' ctx u.
      ap some (handle_sizes-init size params unspent consumed created unspent' u);
  ignores = λ s b ctx. refl;
}

-- Let the ledger updates of a milestone be made of the outputs that it consumed and created, let its
-- cone arrive without an error, and let the blocks of the cone, in their order, take the unspent
-- outputs `unspent` to `unspent'`: the included transactions spend and make, in the order of their
-- inputs and outputs, the consumed and created outputs of the milestone, and all other blocks change
-- nothing. Then updating the ledger output, the unlock condition and the ledger size analytics that
-- were initialised from `unspent` succeeds, and leaves and measures what initialising them from
-- `unspent'` does.
pub update_analytics-init :
    {Text E Range : Type 0} (size : ProtocolParameters → Output → LedgerSizeMeasurement)
    (params : ProtocolParameters) (m : Milestone Text E Range) (spent : List LedgerSpent)
    (made unspent unspent' : List LedgerOutput) (cone : List BlockData)
    → m.ledger_updates ≡ init spent made
    → cone_stream m ≡ ok (map ok cone)
    → Evolves spent made unspent cone unspent'
    → (update_analytics ledger_outputs m (LedgerOutputs.init unspent)
        ≡ ok (LedgerOutputs.init unspent', LedgerOutputs.init unspent'))
      × (update_analytics unlock_conditions m (UnlockConditions.init unspent)
          ≡ ok (UnlockConditions.init unspent', UnlockConditions.init unspent'))
      × (update_analytics (ledger_size size) m (LedgerSize.init size params unspent)
          ≡ ok (
            (LedgerSize.init size params unspent').measurement,
            LedgerSize.init size params unspent',
          ))
update_analytics-init size params m spent made unspent unspent' cone updates arrives evolves = (
  update_analytics-Tracks ledger_outputs LedgerOutputs.init ledger_outputs-Tracks m spent made
      updates unspent unspent' cone arrives evolves,
  update_analytics-Tracks unlock_conditions UnlockConditions.init unlock_conditions-Tracks m spent
      made updates unspent unspent' cone arrives evolves,
  update_analytics-Tracks (ledger_size size) (LedgerSize.init size params)
      (ledger_size-Tracks size params) m spent made updates unspent unspent' cone arrives evolves,
)
