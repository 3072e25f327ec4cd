-- ===== src/Analytics/Ledger/LedgerOutputs.antt =====
-- `LedgerOutputMeasurement`: src/analytics/ledger/ledger_outputs.rs.
pub mod Recompute
use inx_chronicle.Common.{
  ℕ, ◌≡◌, refl, sym, ◌∙◌, Bool, true, false, List, [], ◌∷◌, arith, if◌then◌else◌,
}
use mathlib.Core.List.{foldl}
use inx_chronicle.Model.Output
use inx_chronicle.Model.Output.{Output}
use inx_chronicle.Model.Ledger.{LedgerOutput, LedgerSpent}
use inx_chronicle.Analytics.Counts.{
  CountAndAmount, no_outputs, add_counts, sub_counts, add_output, tally, foldl_tally, tally_sub_add,
}
use inx_chronicle.Analytics.Update.{UpdatesTo, spent_outputs}

pub record LedgerOutputMeasurement : Type 0 where
  pub alias : CountAndAmount
  pub basic : CountAndAmount
  pub nft : CountAndAmount
  pub foundry : CountAndAmount
  pub treasury : CountAndAmount

abbrev pub no_measurement : LedgerOutputMeasurement
no_measurement = record {
  alias = no_outputs;
  basic = no_outputs;
  nft = no_outputs;
  foundry = no_outputs;
  treasury = no_outputs;
}

-- the body of the loop in `init`
pub add_kind : LedgerOutputMeasurement → LedgerOutput → LedgerOutputMeasurement
add_kind m o = elim o.output [
  | Output.alias a ↦ record m { alias = add_output m.alias o }
  | Output.basic b ↦ record m { basic = add_output m.basic o }
  | Output.nft n ↦ record m { nft = add_output m.nft o }
  | Output.foundry f ↦ record m { foundry = add_output m.foundry o }
  | Output.treasury t ↦ record m { treasury = add_output m.treasury o }
]

unfoldable pub init : List LedgerOutput → LedgerOutputMeasurement
unfolding add_kind
init unspent_outputs = foldl add_kind no_measurement unspent_outputs

unfoldable pub wrapping_add :
    LedgerOutputMeasurement → LedgerOutputMeasurement → LedgerOutputMeasurement
wrapping_add m rhs = record {
  alias = add_counts m.alias rhs.alias;
  basic = add_counts m.basic rhs.basic;
  nft = add_counts m.nft rhs.nft;
  foundry = add_counts m.foundry rhs.foundry;
  treasury = add_counts m.treasury rhs.treasury;
}

unfoldable pub wrapping_sub :
    LedgerOutputMeasurement → LedgerOutputMeasurement → LedgerOutputMeasurement
wrapping_sub m rhs = record {
  alias = sub_counts m.alias rhs.alias;
  basic = sub_counts m.basic rhs.basic;
  nft = sub_counts m.nft rhs.nft;
  foundry = sub_counts m.foundry rhs.foundry;
  treasury = sub_counts m.treasury rhs.treasury;
}

unfoldable pub handle_transaction :
    LedgerOutputMeasurement → List LedgerSpent → List LedgerOutput → LedgerOutputMeasurement
handle_transaction m consumed created =
    wrapping_add (wrapping_sub m (init (spent_outputs consumed))) (init created)
