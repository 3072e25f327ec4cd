-- ===== src/Analytics/Ledger/LedgerSize.antt =====
-- `LedgerSizeAnalytics`: src/analytics/ledger/ledger_size.rs. `Output::ledger_size` computes with
-- the package `iota-types` and is a parameter.
pub mod Recompute
use inx_chronicle.Common.{ℕ, List}
use inx_chronicle.Common.Words
use mathlib.Core.List.{foldl}
use inx_chronicle.Model.Output.{Output}
use inx_chronicle.Model.Protocol.{ProtocolParameters}
use inx_chronicle.Model.Ledger.{LedgerOutput, LedgerSpent}
use inx_chronicle.Analytics.Update.{spent_outputs}

pub record LedgerSizeMeasurement : Type 0 where
  pub total_key_bytes : ℕ
  pub total_data_bytes : ℕ
  pub total_storage_deposit_amount : ℕ

pub record LedgerSizeAnalytics : Type 0 where
  pub protocol_params : ProtocolParameters
  pub measurement : LedgerSizeMeasurement

abbrev pub no_measurement : LedgerSizeMeasurement
no_measurement = record {
  total_key_bytes = 0;
  total_data_bytes = 0;
  total_storage_deposit_amount = 0;
}

unfoldable pub wrapping_add : LedgerSizeMeasurement → LedgerSizeMeasurement → LedgerSizeMeasurement
wrapping_add m rhs = record {
  total_key_bytes = Words.wrapping_add m.total_key_bytes rhs.total_key_bytes;
  total_data_bytes = Words.wrapping_add m.total_data_bytes rhs.total_data_bytes;
  total_storage_deposit_amount =
      Words.wrapping_add m.total_storage_deposit_amount rhs.total_storage_deposit_amount;
}

unfoldable pub wrapping_sub : LedgerSizeMeasurement → LedgerSizeMeasurement → LedgerSizeMeasurement
wrapping_sub m rhs = record {
  total_key_bytes = Words.wrapping_sub m.total_key_bytes rhs.total_key_bytes;
  total_data_bytes = Words.wrapping_sub m.total_data_bytes rhs.total_data_bytes;
  total_storage_deposit_amount =
      Words.wrapping_sub m.total_storage_deposit_amount rhs.total_storage_deposit_amount;
}

-- one pass of a loop that adds, and one of a loop that takes away
abbrev pub add_size :
    (LedgerOutput → LedgerSizeMeasurement)
    → LedgerSizeMeasurement
    → LedgerOutput
    → LedgerSizeMeasurement
add_size size m output = wrapping_add m (size output)

abbrev pub sub_size :
    (LedgerOutput → LedgerSizeMeasurement)
    → LedgerSizeMeasurement
    → LedgerOutput
    → LedgerSizeMeasurement
sub_size size m output = wrapping_sub m (size output)

module _ (ledger_size : ProtocolParameters → Output → LedgerSizeMeasurement) where
  -- the size of an output under the parameters
  abbrev pub size_of : ProtocolParameters → LedgerOutput → LedgerSizeMeasurement
  size_of protocol_params o = ledger_size protocol_params o.output

  unfoldable pub init : ProtocolParameters → List LedgerOutput → LedgerSizeAnalytics
  init protocol_params unspent_outputs = record {
    protocol_params = protocol_params;
    measurement = foldl (add_size (size_of protocol_params)) no_measurement unspent_outputs;
  }

  unfoldable pub handle_transaction :
      LedgerSizeAnalytics → List LedgerSpent → List LedgerOutput → LedgerSizeAnalytics
  handle_transaction a consumed created =
      let size = size_of a.protocol_params in
      let added = foldl (add_size size) a.measurement created in
      record a { measurement = foldl (sub_size size) added (spent_outputs consumed) }
